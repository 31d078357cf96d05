-- ===== src/Download/Partition.antt =====
-- The missing and the completed chunks split the chunks of the file, whatever the worker meets.
use distri_store.Prelude.{
  ℕ, ◌+◌, ◌<◌, ◌≡◌, refl, ◌∙◌, Bool, true, Option, none, some, List, [], ◌∷◌, Str, Bytes, length,
  length-append, leb, ltb, inl, inr, Bool-cases, arith, if◌then◌else◌,
}
use distri_store.Prelude.Count.{
  elem, count, range_from, count-append, elem-count, count-remove_first, length-remove_first,
  count-range_from, length-range_from,
}
use distri_store.Prelude.Dict.{Dict}
use distri_store.Manifest.{ChunkInfo, FileManifest}
use distri_store.Download.{
  Status, paused, DownloadState, ResumeDict, to_resume_dict, mark_completed,
}
use distri_store.Download.LoopRule.{chunk_loop_inv}
use distri_store.Download.Worker.{
  Worker, LoopEnd, all_visited, Fetched, Merged, merged, merge_failed, merge_cancelled, save_resume,
  flush_interval, flush_due, take_chunk, chunk_loop, final_merge, finish, download_worker,
  set_status, set_error,
}

-- Each index below `total` is in one of the two lists, once, and no other index is in any.
pub record IsSplit (total : ℕ) (missing finished : List ℕ) : Type 0 where
  pub each : (i : ℕ) → count i missing + count i finished ≡ (if ltb i total then 1 else 0)
  pub sizes : length missing + length finished ≡ total

abbrev pub StateOk : DownloadState → Type 0
StateOk s = IsSplit s.total_chunks s.missing_chunks s.completed_chunks

pub fresh-IsSplit : (n : ℕ) → IsSplit n (range_from 0 n) []
unfolding count
fresh-IsSplit n = record {
  each = λ i. ground (arith, count-range_from i 0 n);
  sizes = omega (arith, length-range_from 0 n);
}

pub lt_of_elem :
    {total : ℕ} {missing finished : List ℕ} (i : ℕ)
    → IsSplit total missing finished
    → elem i missing ≡ true
    → i < total
lt_of_elem {missing = missing} i h e = ground (arith, h.each i, elem-count i missing)

total-mark_completed :
    (i : ℕ) (s : DownloadState) → (mark_completed i s).total_chunks ≡ s.total_chunks
unfolding mark_completed
total-mark_completed i s = refl

pub mark_completed-StateOk :
    (i : ℕ) (s : DownloadState) → i < s.total_chunks → StateOk s → StateOk (mark_completed i s)
unfolding mark_completed count
mark_completed-StateOk i s lt h = record {
  each = λ j. ground (
    arith,
    h.each j,
    h.each i,
    elem-count i s.missing_chunks,
    elem-count i s.completed_chunks,
    count-remove_first i j s.missing_chunks,
    count-append j s.completed_chunks (i ∷ []),
  );
  sizes = ground (
    arith,
    h.sizes,
    h.each i,
    elem-count i s.missing_chunks,
    elem-count i s.completed_chunks,
    length-remove_first i s.missing_chunks,
    length-append s.completed_chunks (i ∷ []),
  );
}

abbrev pub FileOk : Option ResumeDict → Type 0
FileOk none = Unit
FileOk (some d) = IsSplit d.total_chunks d.missing_chunks d.completed_chunks

-- The state and the file on disk both split the chunks of a file of `total` chunks.
pub record WorkerOk (total : ℕ) (w : Worker) : Type 0 where
  pub total_kept : w.state.total_chunks ≡ total
  pub state : StateOk w.state
  pub resume_file : FileOk w.resume_file

pub save_resume-WorkerOk :
    (total now : ℕ) (w : Worker) → WorkerOk total w → WorkerOk total (save_resume now w)
unfolding save_resume to_resume_dict
save_resume-WorkerOk total now w h = record {
  total_kept = h.total_kept;
  state = h.state;
  resume_file = h.state;
}

set_status-WorkerOk :
    (total : ℕ) (st : Status) (w : Worker) → WorkerOk total w → WorkerOk total (set_status st w)
unfolding set_status
set_status-WorkerOk total st w h = record {
  total_kept = h.total_kept;
  state = h.state;
  resume_file = h.resume_file;
}

set_error-WorkerOk :
    (total : ℕ) (e : Str) (w : Worker) → WorkerOk total w → WorkerOk total (set_error e w)
unfolding set_error
set_error-WorkerOk total e w h = record {
  total_kept = h.total_kept;
  state = h.state;
  resume_file = h.resume_file;
}

flush_due-WorkerOk :
    (total now : ℕ) (w : Worker) → WorkerOk total w → WorkerOk total (flush_due now w)
unfolding flush_due to_resume_dict
flush_due-WorkerOk total now w h = elim (Bool-cases (leb flush_interval w.chunks_since_flush)) [
  | inl due ↦ rw due (record { total_kept = h.total_kept; state = h.state; resume_file = h.state })
  | inr early ↦ rw early h
]

pub take_chunk-WorkerOk :
    (total now : ℕ) (info : ChunkInfo) (b : Bytes) (w : Worker)
    → info.index < total
    → WorkerOk total w
    → WorkerOk total (take_chunk now info b w)
unfolding take_chunk
take_chunk-WorkerOk total now info b w lt h = flush_due-WorkerOk total now _ (record {
  total_kept = total-mark_completed info.index w.state ∙ h.total_kept;
  state = mark_completed-StateOk info.index w.state (rw h.total_kept lt) h.state;
  resume_file = h.resume_file;
})

pub final_merge-WorkerOk :
    (total now : ℕ) (m : Merged) (w : Worker)
    → WorkerOk total w
    → WorkerOk total (final_merge now m w)
unfolding final_merge save_resume set_status set_error to_resume_dict
final_merge-WorkerOk total now merged w h = record {
  total_kept = h.total_kept;
  state = h.state;
  resume_file = tt;
}
final_merge-WorkerOk total now (merge_failed e) w h = record {
  total_kept = h.total_kept;
  state = h.state;
  resume_file = h.state;
}
final_merge-WorkerOk total now merge_cancelled w h = record {
  total_kept = h.total_kept;
  state = h.state;
  resume_file = h.state;
}

finish-WorkerOk :
    (total now : ℕ) (merge : Dict Bytes → Merged) (end : LoopEnd) (w : Worker)
    → WorkerOk total w
    → WorkerOk total (finish now merge (end, w))
finish-WorkerOk total now merge all_visited w h =
    final_merge-WorkerOk total now (merge w.store) _ (save_resume-WorkerOk total now w h)
finish-WorkerOk total now merge _ w h = h

module _ (now : ℕ) (pause_set : ℕ → Bool) (load_chunk_fn : Str → Fetched) where
  pub chunk_loop-WorkerOk :
      (total : ℕ) (wanted : List ℕ) (l : List ChunkInfo) (w : Worker)
      → ((i : ℕ) → elem i wanted ≡ true → i < total)
      → WorkerOk total w
      → WorkerOk total (chunk_loop now pause_set load_chunk_fn wanted l w).1
  chunk_loop-WorkerOk total wanted l w below h =
      chunk_loop_inv (WorkerOk total) wanted now pause_set load_chunk_fn
        (λ info b v here k. take_chunk-WorkerOk total now info b v (below info.index here) k)
        (λ e v k.
          set_error-WorkerOk total e (save_resume now v) (save_resume-WorkerOk total now v k))
        (λ v k.
          save_resume-WorkerOk total now (set_status paused v)
            (set_status-WorkerOk total paused v k))
        l w h

  -- From a state whose missing and completed chunks split the chunks of the file, the worker
  -- ends in such a state and leaves such a `.resume` file, or none: after every mix of fetched,
  -- failed and cancelled chunks, pauses, and outcomes of the merge.
  pub download_worker-WorkerOk :
      (total : ℕ) (manifest : FileManifest) (merge : Dict Bytes → Merged) (w : Worker)
      → WorkerOk total w
      → WorkerOk total (download_worker now pause_set load_chunk_fn manifest merge w)
  unfolding download_worker
  download_worker-WorkerOk total manifest merge w h = finish-WorkerOk total now merge _ _ (
      chunk_loop-WorkerOk total w.state.missing_chunks _ w
        (λ i e. rw h.total_kept at (lt_of_elem i h.state e)) h)
