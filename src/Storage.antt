-- ===== src/Storage.antt =====
-- The storage layer (src/storage/ and include/forgerelay/storage/): the metadata tables and the chunk
-- files that an instance of `Storage` keeps. A table is the list of its rows, in the order of their
-- insertion; a row of `artifact` holds its rows of `artifact_chunk`, which are inserted and deleted with
-- it. Times are seconds, given to each call, and not negative.
use forgerelay.Prelude.{List, [], ℕ}
use forgerelay.Messages.Fields.{Outcome}
use forgerelay.Messages.Listing.{ArtifactInfo}
pub mod Tables
pub mod Sessions
pub mod Reads
pub mod ChunkFormat
pub mod Upkeep
pub mod Safety
pub mod Histories
mod Tests

pub data SessionState : Type 0 where
  opened committing completed aborted expired : SessionState

-- `SessionInfo`, a row of `upload_session`.
pub record SessionInfo : Type 0 where
  pub id : List ℕ
  pub owner : List ℕ
  pub state : SessionState
  pub ns : List ℕ
  pub name : List ℕ
  pub version : List ℕ
  pub expected_size : ℕ
  pub expected_digest : List ℕ
  pub chunk_size : ℕ
  pub created_at : ℕ
  pub expires_at : ℕ

-- A row of `upload_part`.
pub record UploadPart : Type 0 where
  pub session_id : List ℕ
  pub ordinal : ℕ
  pub digest : List ℕ
  pub extent : ℕ

-- 'ACTIVE', or 'PENDING_DELETE' with its `pending_at`.
pub data ChunkState : Type 0 where
  row_active : ChunkState
  row_pending : ℕ → ChunkState

-- A row of `chunk`; `stored_size` and `created_at` are never read.
pub record ChunkRow : Type 0 where
  pub digest : List ℕ
  pub raw_size : ℕ
  pub state : ChunkState

-- A chunk file of the store, under the path of its digest.
pub record ChunkFile : Type 0 where
  pub digest : List ℕ
  pub content : List ℕ

pub record Db : Type 0 where
  pub sessions : List SessionInfo
  pub parts : List UploadPart
  pub chunks : List ChunkRow
  pub artifacts : List ArtifactInfo
  pub files : List ChunkFile

pub record StorageConfig : Type 0 where
  pub chunk_size : ℕ
  pub capacity_bytes : ℕ
  pub high_watermark_percent : ℕ
  pub session_hours : ℕ
  pub gc_grace_seconds : ℕ
  pub max_sessions_per_owner : ℕ

abbrev pub empty_db : Db
empty_db = record { sessions = []; parts = []; chunks = []; artifacts = []; files = [] }

-- A method's result, a value or a thrown error, with the state after it.
abbrev pub Call : Type 0 → Type 0
Call A = Outcome A × Db
