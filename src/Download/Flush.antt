-- ===== src/Download/Flush.antt =====
-- The periodic flush: how far the `.resume` file can lag behind the worker.
use mathlib.Core.List.{append-nil, append_assoc}
use distri_store.Prelude.{
  ℕ, ◌≤◌, ◌<◌, ◌≡◌, refl, sym, ap, ◌∙◌, Bool, some, List, [], ◌∷◌, ◌++◌, Str, Bytes, length,
  length-append, leb, inl, inr, Bool-cases, arith, if◌then◌else◌,
}
use distri_store.Prelude.Count.{elem}
use distri_store.Manifest.{ChunkInfo}
use distri_store.Download.{ResumeDict, paused, DownloadState, to_resume_dict, mark_completed}
use distri_store.Download.LoopRule.{chunk_loop_inv}
use distri_store.Download.Worker.{
  Worker, Fetched, save_resume, set_status, set_error, flush_interval, flush_due, take_chunk,
  chunk_loop,
}

-- The file holds all completed chunks but the last few, fewer than the flush interval.
pub record LagOk (w : Worker) : Type 0 where
  pub saved : ResumeDict
  pub file : w.resume_file ≡ some saved
  pub recent : List ℕ
  pub split : saved.completed_chunks ++ recent ≡ w.state.completed_chunks
  pub few : length recent ≤ w.chunks_since_flush
  pub bound : w.chunks_since_flush < flush_interval

-- What a completed chunk adds to the list.
added : ℕ → DownloadState → List ℕ
added i s = if elem i s.completed_chunks then [] else i ∷ []

completed-mark_completed :
    (i : ℕ) (s : DownloadState)
    → (mark_completed i s).completed_chunks ≡ s.completed_chunks ++ added i s
unfolding mark_completed added
completed-mark_completed i s = elim (Bool-cases (elem i s.completed_chunks)) [
  | inl old ↦ rw old (sym (append-nil _))
  | inr new ↦ rw new
]

length-added : (i : ℕ) (s : DownloadState) → length (added i s) ≤ 1
unfolding added
length-added i s = ground arith

save_resume-LagOk : (now : ℕ) (w : Worker) → LagOk w → LagOk (save_resume now w)
unfolding save_resume to_resume_dict
save_resume-LagOk now w h = record {
  saved = to_resume_dict (record w.state { updated_at = now });
  file = refl;
  recent = [];
  split = append-nil _;
  few = omega arith;
  bound = h.bound;
}

flush_due-LagOk :
    (now : ℕ) (w : Worker) (saved : ResumeDict) (recent : List ℕ)
    → w.resume_file ≡ some saved
    → saved.completed_chunks ++ recent ≡ w.state.completed_chunks
    → length recent ≤ w.chunks_since_flush
    → LagOk (flush_due now w)
unfolding flush_due to_resume_dict
flush_due-LagOk now w saved recent f s few =
    elim (Bool-cases (leb flush_interval w.chunks_since_flush)) [
      | inl due ↦ rw due (record {
        saved = to_resume_dict (record w.state { updated_at = now });
        file = refl;
        recent = [];
        split = append-nil _;
        few = omega arith;
        bound = omega arith;
      })
      | inr early ↦ rw early (record {
        saved = saved;
        file = f;
        recent = recent;
        split = s;
        few = few;
        bound = ground arith;
      })
    ]

take_chunk-LagOk :
    (now : ℕ) (info : ChunkInfo) (b : Bytes) (w : Worker)
    → LagOk w
    → LagOk (take_chunk now info b w)
unfolding take_chunk
take_chunk-LagOk now info b w h =
    let new = added info.index w.state in
    flush_due-LagOk now _ h.saved (h.recent ++ new) h.file
      (sym (append_assoc h.saved.completed_chunks h.recent new)
        ∙ ap (λ l. l ++ new) h.split
        ∙ sym (completed-mark_completed info.index w.state))
      (omega (arith, length-append h.recent new, length-added info.index w.state, h.few))

set_error-LagOk : (e : Str) (w : Worker) → LagOk w → LagOk (set_error e w)
unfolding set_error
set_error-LagOk e w h = record {
  saved = h.saved;
  file = h.file;
  recent = h.recent;
  split = h.split;
  few = h.few;
  bound = h.bound;
}

set_paused-LagOk : (w : Worker) → LagOk w → LagOk (set_status paused w)
unfolding set_status
set_paused-LagOk w h = record {
  saved = h.saved;
  file = h.file;
  recent = h.recent;
  split = h.split;
  few = h.few;
  bound = h.bound;
}

-- After any number of chunks of the loop the `.resume` file lacks fewer than `FLUSH_INTERVAL`
-- of the completed chunks, and these are the last ones: a crash loses no more than them.
pub chunk_loop-LagOk :
    (now : ℕ) (pause_set : ℕ → Bool) (load_chunk_fn : Str → Fetched) (wanted : List ℕ)
    (l : List ChunkInfo) (w : Worker)
    → LagOk w
    → LagOk (chunk_loop now pause_set load_chunk_fn wanted l w).1
chunk_loop-LagOk now pause_set load_chunk_fn wanted l w h =
    chunk_loop_inv LagOk wanted now pause_set load_chunk_fn
      (λ info b v here k. take_chunk-LagOk now info b v k)
      (λ e v k. set_error-LagOk e _ (save_resume-LagOk now v k))
      (λ v k. save_resume-LagOk now (set_status paused v) (set_paused-LagOk v k)) l w h
