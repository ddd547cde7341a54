-- ===== src/Dispatch/Get.antt =====
-- src/service/fr_dispatch.cpp: FR_MSG_GET_ARTIFACT and `handle_get_continue`. A DATA frame is its payload;
-- the final OK frame carries the number of bytes sent.
use forgerelay.Prelude.{
  List, Option, [], if◌then◌else◌, ltb, none, some, suc, zero, ℕ, ◌%◌, ◌*◌, ◌++◌, ◌+◌, ◌-◌, ◌==◌,
  ◌^◌, ◌||◌,
}
use forgerelay.Core.Buffer.Reader.{remaining}
use forgerelay.Core.Frame.Parser.Stream.{joined}
use forgerelay.Core.Status.{Status}
use forgerelay.Messages.Fields.{done, thrown}
use forgerelay.Storage.{Db}
use forgerelay.Storage.Reads.{Sent, read_artifact_slice}
pub mod Transfer
pub mod Range

abbrev pub data_slice_bytes : ℕ
data_slice_bytes = 1024 * 1024

-- `Impl::GetState`, but for the id that the frames echo.
pub record GetState : Type 0 where
  pub ns : List ℕ
  pub name : List ℕ
  pub version : List ℕ
  pub offset : ℕ
  pub remaining : ℕ
  pub sent : ℕ

-- An answer: the DATA payloads, then the state to go on from, the final OK, or an error. An error
-- clears what was written of the answer.
pub data GetAnswer : Type 0 where
  get_more : List (List ℕ) → GetState → GetAnswer
  get_final : List (List ℕ) → ℕ → GetAnswer
  get_broken : Status → GetAnswer

abbrev pub slice_of : GetState → ℕ
slice_of st = if ltb data_slice_bytes st.remaining then data_slice_bytes else st.remaining

-- The state after `n` more bytes.
abbrev pub move_on : ℕ → GetState → GetState
move_on n st = record st {
  offset = (st.offset + n) % 2 ^ 64;
  remaining = st.remaining - n;
  sent = (st.sent + n) % 2 ^ 64;
}

-- The slice is read if it is not empty.
abbrev pub read_next : Db → GetState → Sent
read_next db st =
    if slice_of st == 0
    then ([], done 0)
    else read_artifact_slice st.ns st.name st.version st.offset (slice_of st) db

unfoldable pub answer_first : GetState → Sent → GetAnswer
answer_first st (pieces, thrown e) = get_broken e
answer_first st (pieces, done n) =
    if st.remaining - n == 0
    then get_final pieces (move_on n st).sent
    else get_more pieces (move_on n st)

-- The answer to FR_MSG_GET_ARTIFACT.
unfoldable pub start_get : Db → (ns name version : List ℕ) (offset size : ℕ) → GetAnswer
unfolding answer_first
start_get db ns name version offset size =
    let st : GetState = record {
      ns = ns;
      name = name;
      version = version;
      offset = offset;
      remaining = size;
      sent = 0;
    } in
    answer_first st (read_next db st)

unfoldable pub answer_next : GetState → Sent → GetAnswer
answer_next st (pieces, thrown e) = get_broken e
answer_next st (pieces, done n) =
    if st.remaining - n == 0 || n == 0
    then get_final pieces (move_on n st).sent
    else get_more pieces (move_on n st)

-- `handle_get_continue`, for a key that is there.
unfoldable pub continue_get : Db → GetState → GetAnswer
unfolding answer_next
continue_get db st = answer_next st (read_next db st)

-- What the client has got in the end: the bytes, and the number in the final OK.
pub record Received : Type 0 where
  pub received_bytes : List ℕ
  pub announced : ℕ

unfoldable pub received_after : List (List ℕ) → Option Received → Option Received
unfolding joined
received_after pieces none = none
received_after pieces (some r) =
    some (record r { received_bytes = joined pieces ++ r.received_bytes })

-- The event loop asks for the next answer while there is one; `none` after an error, or when the rounds
-- do not suffice.
unfoldable pub receive_all : ℕ → Db → GetAnswer → Option Received
receive_all rounds db (get_final pieces n) =
    some (record { received_bytes = joined pieces; announced = n })
receive_all rounds db (get_broken e) = none
receive_all zero db (get_more pieces st) = none
receive_all (suc rounds) db (get_more pieces st) =
    received_after pieces (receive_all rounds db (continue_get db st))
