-- ===== src/Download.antt =====
-- backend/api/download_manager.py: the state of one download and its `.resume` file.
pub mod Worker
pub mod Manager
mod LoopRule
pub mod Partition
pub mod Progress
pub mod Completion
pub mod Delivery
pub mod Flush
pub mod Steps
pub mod Safety
pub mod Recovery
pub mod Stale
mod Tests
use mathlib.Core.Option
use distri_store.Prelude.{
  ℕ, Bool, true, false, Option, none, some, List, [], ◌∷◌, ◌++◌, Str, length, if◌then◌else◌,
}
use distri_store.Prelude.Count.{elem, remove_first}

pub data Status : Type 0 where
  pending downloading paused completed error : Status

-- `state.status == "downloading"`
unfoldable pub is_downloading : Status → Bool
is_downloading downloading = true
is_downloading _ = false

-- `state.status in ("completed", "error")`
unfoldable pub is_finished : Status → Bool
is_finished completed = true
is_finished error = true
is_finished _ = false

-- Times are clock readings.
pub record DownloadState : Type 0 where
  pub file_hash : Str
  pub filename : Str
  pub total_chunks : ℕ
  pub total_size : ℕ
  pub missing_chunks : List ℕ
  pub completed_chunks : List ℕ
  pub started_at : ℕ
  pub updated_at : ℕ
  pub status : Status
  pub error_message : Str
  pub password : Str

-- What a `.resume` file holds; the last three keys may be absent.
pub record ResumeDict : Type 0 where
  pub file_hash : Str
  pub filename : Str
  pub total_chunks : ℕ
  pub total_size : ℕ
  pub missing_chunks : List ℕ
  pub completed_chunks : List ℕ
  pub started_at : Option ℕ
  pub updated_at : Option ℕ
  pub status : Option Status

unfoldable pub to_resume_dict : DownloadState → ResumeDict
to_resume_dict s = record {
  file_hash = s.file_hash;
  filename = s.filename;
  total_chunks = s.total_chunks;
  total_size = s.total_size;
  missing_chunks = s.missing_chunks;
  completed_chunks = s.completed_chunks;
  started_at = some s.started_at;
  updated_at = some s.updated_at;
  status = some s.status;
}

unfoldable pub from_resume_dict : ResumeDict → DownloadState
from_resume_dict d = record {
  file_hash = d.file_hash;
  filename = d.filename;
  total_chunks = d.total_chunks;
  total_size = d.total_size;
  missing_chunks = d.missing_chunks;
  completed_chunks = d.completed_chunks;
  started_at = Option.get_or d.started_at 0;
  updated_at = Option.get_or d.updated_at 0;
  status = Option.get_or d.status paused;
  error_message = [];
  password = [];
}

-- The two `if`s of the worker once a chunk is there.
unfoldable pub mark_completed : ℕ → DownloadState → DownloadState
mark_completed i s = record s {
  missing_chunks =
      if elem i s.missing_chunks then remove_first i s.missing_chunks else s.missing_chunks;
  completed_chunks =
      if elem i s.completed_chunks then s.completed_chunks else s.completed_chunks ++ i ∷ [];
}
