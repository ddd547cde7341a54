-- ===== src/Lib.antt =====
-- ForgeRelay: a server that keeps build artifacts, with a framed protocol over TCP.
--
-- The program. libfrcore (src/core_c, include/forgerelay) is a C library: status codes, checked
-- arithmetic, byte order, CRC32, a growable buffer with a reader, hexadecimal text, paths, and the
-- FRLY frame with an incremental parser. The server (src/transport/fr_server.cpp) feeds what a
-- connection sends to the parser and queues the frames; a worker decodes a frame's payload with
-- src/service/fr_messages.cpp, and the response is encoded with the same file and framed again.
--
-- Which file models what:
--   Core/Status.antt        include/forgerelay/fr_error.h and src/core_c/fr_error.c: `Status` is
--                           `fr_status`, `code_magnitude` the number under the minus sign.
--   Core/Checked.antt       src/core_c/fr_checked.c, in both builds: with the compiler's overflow test
--                           (`_builtin`) and without it (`_wide`, `_wrapped`).
--   Core/Byteorder.antt     src/core_c/fr_byteorder.c.
--   Core/Crc32.antt         src/core_c/fr_crc32.c.
--   Core/Buffer.antt        src/core_c/fr_buffer.c: `Buf` is `fr_buf`, `reserve`, `append`, `consume`
--                           and the others are `fr_buf_*`; its reader is in Core/Buffer/Reader.antt.
--   Core/Frame.antt         include/forgerelay/fr_frame.h and `fr_frame_encode`.
--   Core/Frame/Parser.antt  `fr_frame_parser_*`; `drain` in Core/Frame/Parser/Stream.antt is the loop
--                           of the server over one received piece, and `receive` runs it on piece
--                           after piece.
--   Core/Hex.antt           src/core_c/fr_hex.c.
--   Core/Path.antt          src/core_c/fr_path.c.
--   Core/Bits.antt          laws of the bitwise operations, no code.
--   Messages/Fields.antt    src/service/fr_messages.cpp, the fields `put_*` and `get_*`.
--   Messages/Upload.antt, Messages/Listing.antt, Messages/Admin.antt
--                           src/service/fr_messages.cpp, the messages `encode_*` and `decode_*`, and
--                           their structs of include/forgerelay/messages.hpp.
--   Messages/Wire.antt, Messages/Travels.antt
--                           what an encoder and its decoder owe each other, no code.
--   Prelude.antt            shared names, tests, lists over the native numbers, signed integers.
-- The files below these prove; those called Tests apply the theorems at concrete inputs.
--
-- How state and failure are modelled. A buffer is its contents and its capacity; an operation gives
-- its status and the buffer after it. `realloc` is the C library's, and a parameter: a function that
-- says whether a block of a size is found. Where a theorem says that memory does not run out, that
-- function always says yes. A pointer with a length is `null n` or `bytes l`; a pointer to a struct or
-- to a result is never NULL, so the checks for that are not modelled. `size_t` has 64 bits. Numbers
-- keep their wrap-around written out as a remainder. An `fr::Error` that is thrown is `thrown` with
-- its code; the texts of errors are left out. The `put_*` functions ignore the status of an append,
-- as the source does.
--
-- Bounds. `grow` takes 64 rounds, and 64 doublings lead from 1 past every `size_t`. `fill_header` takes
-- 20 rounds, as each copies a byte at least of a header of 20. `drain` takes as many rounds as its
-- piece has bytes, as each frame has at least its header. A theorem that a result comes out excludes
-- the outcomes `stuck`, `unfinished` and `out_of_rounds`, which the program does not have.
--
-- The server above the library. src/storage/fr_storage.cpp keeps upload sessions, chunks and artifacts in
-- tables and chunk files; src/service/fr_auth.cpp the users and tokens; src/service/fr_dispatch.cpp checks
-- who asks and calls the two. `Db` and `Accounts` are the tables, a method takes the state and the time and
-- gives its result, a value or `thrown`, with the state after it. The model has one call after another. The
-- dispatcher sees to that with a lock around its calls, but the program does not do so everywhere:
-- FR_MSG_SESSION_ABORT does not take the lock, `maintenance_loop` of src/transport/fr_server.cpp calls
-- `run_maintenance` from a thread of its own without it, and FR_MSG_PUT_CHUNK gives it up between the check
-- of the owner and the call. What calls do to each other when they overlap is not modelled.
--
--   Storage.antt            the tables of src/storage/fr_schema.cpp and the structs of
--                           include/forgerelay/storage/storage.hpp.
--   Storage/Tables.antt     the statements that the methods share (`Storage::Impl`).
--   Storage/Sessions.antt, Storage/Sessions/Commit.antt
--                           `create_session`, `put_chunk`, `abort_session` and `commit_session`.
--   Storage/Upkeep.antt     `delete_artifact`, `collect_garbage` and `run_maintenance`.
--   Storage/Reads.antt      `show_artifact`, `read_artifact_slice`, and the `get_range` of
--                           src/storage/fr_chunk_store.cpp.
--   Storage/ChunkFormat.antt
--                           the header of a chunk file in src/storage/fr_chunk_store.cpp.
--   Storage/Safety.antt, Storage/Histories.antt
--                           what holds between calls; sequences of calls, and the state machine of the
--                           sessions in Storage/Histories/Lifecycle.antt.
--   Auth.antt, Auth/Registry.antt
--                           src/service/fr_auth.cpp: users, tokens and `verify`.
--   Dispatch/Guards.antt    the checks of role, owner and address of src/service/fr_dispatch.cpp.
--   Dispatch/Get.antt       FR_MSG_GET_ARTIFACT and `handle_get_continue`.
--   Dispatch/Commands.antt  the requests of `dispatch_business` that may change the tables.
--
-- In the storage, statements and file operations do not fail by themselves, but for the constraints
-- that the code relies on (an id, a name or a hash that is taken). Memory is taken to suffice but for one
-- request, whose size the client chooses: `commit_session` reserves a manifest of the session's number of
-- chunks once the session is COMMITTING. `room n` says whether there is room for `n` entries; it is the C++
-- library's and a parameter, and nothing is assumed of it but that it answers the same at every call.
-- `hash` is the SHA-256 of the system as text, and a parameter: nothing is assumed of it. A text may hold
-- a NUL; where the code checks its C string, the model checks `c_str` of it. A session id and a token are
-- drawn at random by the program, and given to the model. Times are seconds from the system's clock, after
-- 1970, and may go back. A row of `artifact` holds its rows of `artifact_chunk`. In `receive_all` the
-- rounds are the continuations that the event loop asks for; a theorem says how many are enough.
--
-- Not modelled: system calls (src/core_c/fr_fd.c, src/transport, src/client, src/apps, but for the
-- loop named above), SQLite itself, the CRC of a chunk's content, temporary files, the digests
-- (OpenSSL or the system's), the lists that the storage and the registry give, the audit, and of
-- src/service the configuration and the log.
pub mod Prelude
pub mod Core
pub mod Messages
pub mod Storage
pub mod Auth
pub mod Dispatch
