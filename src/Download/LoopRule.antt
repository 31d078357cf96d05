-- ===== src/Download/LoopRule.antt =====
-- The invariant rule of the worker's loop: what each body keeps, the loop keeps.
use distri_store.Prelude.{ℕ, ◌≡◌, Bool, true, List, [], ◌∷◌, Str, Bytes, inl, inr, Bool-cases}
use distri_store.Prelude.Count.{elem}
use distri_store.Manifest.{ChunkInfo}
use distri_store.Download.{paused}
use distri_store.Download.Worker.{
  Worker, Fetched, arrived, failed, interrupted, save_resume, set_status, set_error, take_chunk,
  after_fetch, LoopEnd, chunk_loop,
}

module _ {κ} (P : Worker → Type κ) (wanted : List ℕ) (now : ℕ) (pause_set : ℕ → Bool)
    (load_chunk_fn : Str → Fetched)
    (keep : (info : ChunkInfo) (b : Bytes) (w : Worker)
      → elem info.index wanted ≡ true
      → P w
      → P (take_chunk now info b w))
    (keep_error : (message : Str) (w : Worker) → P w → P (set_error message (save_resume now w)))
    (keep_cancel : (w : Worker) → P w → P (save_resume now (set_status paused w))) where
  after_fetch_inv :
      (w : Worker)
      → P w
      → (go : Bytes → LoopEnd × Worker) → ((b : Bytes) → P (go b).1)
      → (f : Fetched) → P (after_fetch now w go f).1
  unfolding after_fetch
  after_fetch_inv w h go keep_go (arrived b) = keep_go b
  after_fetch_inv w h go keep_go (failed message) = keep_error message w h
  after_fetch_inv w h go keep_go interrupted = keep_cancel w h

  pub chunk_loop_inv :
      (l : List ChunkInfo) (w : Worker)
      → P w
      → P (chunk_loop now pause_set load_chunk_fn wanted l w).1
  unfolding chunk_loop
  chunk_loop_inv [] w h = h
  chunk_loop_inv (info ∷ rest) w h = elim (Bool-cases (elem info.index wanted)) [
    | inr skip ↦ rw skip (chunk_loop_inv rest w h)
    | inl here ↦ elim (Bool-cases (pause_set info.index)) [
      | inl stop ↦ rw (here, stop) h
      | inr on ↦
          rw (here, on)
            (after_fetch_inv w h _
              (λ b. chunk_loop_inv rest (take_chunk now info b w) (keep info b w here h))
              (load_chunk_fn info.chunk_hash))
    ]
  ]
