-- ===== src/Download/Completion.antt =====
-- A worker that is neither paused nor cancelled and gets its chunks completes the download.
use mathlib.Core.List.{Mem, not-mem-nil, eq-or-mem_of_mem-cons}
use mathlib.Core.List.Perm
use mathlib.Core.Logic.Or
use mathlib.Core.Bool.{Bool-set, true≢false}
use mathlib.Core.Option.{some-injective}
use mathlib.Core.Path.{subst}
use distri_store.Prelude.{
  ℕ, ◌<◌, ◌≡◌, refl, sym, ap, ◌∙◌, Bool, true, false, none, some, str_eq, str_eq_iff, Option-cases,
  if◌then◌else◌, List, [], ◌∷◌, Str, Bytes, ◌==◌, inl, inr, Bool-cases, arith,
}
use distri_store.Prelude.Count.{elem, count}
use distri_store.Prelude.Dict
use distri_store.Prelude.Dict.{Dict, get-put}
use distri_store.Prelude.Sort.{sort_by, sort_by-perm}
use distri_store.Manifest.{ChunkInfo, FileManifest}
use distri_store.Download.{completed}
use distri_store.Download.LoopRule.{chunk_loop_inv}
use distri_store.Download.Partition.{
  WorkerOk, take_chunk-WorkerOk, chunk_loop-WorkerOk, save_resume-WorkerOk, lt_of_elem,
}
use distri_store.Download.Worker.{
  Worker, LoopEnd, all_visited, Fetched, arrived, Merged, merged, save_resume, set_status,
  set_error, has_chunk, take_chunk, after_fetch, chunk_loop, by_index, final_merge, finish,
  download_worker,
}
use distri_store.Download.Progress.{
  has_chunk-put_stays, has_chunk-put_self, elem-sort_by, elem-mark_completed_stays,
  store-take_chunk, elem-mark_completed_self, nil_of_elem, indices, missing-take_chunk,
}

-- A download of `total` chunks that is over.
pub record IsCompleted (total : ℕ) (w : Worker) : Type 0 where
  pub status : w.state.status ≡ completed
  pub nothing_missing : w.state.missing_chunks ≡ []
  pub each_once : (i : ℕ) → i < total → count i w.state.completed_chunks ≡ 1
  pub no_file : w.resume_file ≡ none

final_merge-IsCompleted :
    (total now : ℕ) (w : Worker)
    → WorkerOk total w
    → w.state.missing_chunks ≡ []
    → IsCompleted total (final_merge now merged w)
unfolding final_merge save_resume set_status count
final_merge-IsCompleted total now w ok empty = record {
  status = refl;
  nothing_missing = empty;
  each_once = λ i lt.
      let none_left : count i w.state.missing_chunks ≡ 0 = ap (count i) empty in
      ground (arith, ok.state.each i);
  no_file = refl;
}

finish-IsCompleted :
    (total now : ℕ) (merge : Dict Bytes → Merged) (end : LoopEnd) (w : Worker)
    → WorkerOk total w
    → end ≡ all_visited
    → w.state.missing_chunks ≡ []
    → merge w.store ≡ merged
    → IsCompleted total (finish now merge (end, w))
finish-IsCompleted total now merge all_visited w ok e empty m = rw m (
    final_merge-IsCompleted total now (save_resume now w) (save_resume-WorkerOk total now w ok)
      (unfold save_resume in empty))
finish-IsCompleted total now merge _ w ok e empty m = absurd (cc)

module _ (now : ℕ) (pause_set : ℕ → Bool) (load_chunk_fn : Str → Fetched)
    (quiet : (i : ℕ) → pause_set i ≡ false) (content : Str → Bytes)
    (arrives : (h : Str) → load_chunk_fn h ≡ arrived (content h)) where
  -- The loop of the section's environment.
  abbrev run : List ℕ → List ChunkInfo → Worker → LoopEnd × Worker
  run = chunk_loop now pause_set load_chunk_fn

  run_here :
      (wanted : List ℕ) (info : ChunkInfo) (rest : List ChunkInfo) (w : Worker)
      → elem info.index wanted ≡ true
      → run wanted (info ∷ rest) w
        ≡ run wanted rest (take_chunk now info (content info.chunk_hash) w)
  unfolding chunk_loop after_fetch
  run_here wanted info rest w here = rw (here, quiet info.index, arrives info.chunk_hash)

  run_skip :
      (wanted : List ℕ) (info : ChunkInfo) (rest : List ChunkInfo) (w : Worker)
      → elem info.index wanted ≡ false
      → run wanted (info ∷ rest) w ≡ run wanted rest w
  unfolding chunk_loop
  run_skip wanted info rest w skip = rw skip

  run_all_visited :
      (wanted : List ℕ) (l : List ChunkInfo) (w : Worker) → (run wanted l w).0 ≡ all_visited
  unfolding chunk_loop
  run_all_visited wanted [] w = refl
  run_all_visited wanted (info ∷ rest) w = elim (Bool-cases (elem info.index wanted)) [
    | inl here ↦ rw (run_here wanted info rest w here) (run_all_visited wanted rest _)
    | inr skip ↦ rw (run_skip wanted info rest w skip) (run_all_visited wanted rest w)
  ]

  -- An index that is not missing stays so.
  run_stays :
      (i : ℕ) (wanted : List ℕ) (l : List ChunkInfo) (w : Worker)
      → elem i w.state.missing_chunks ≡ false
      → elem i (run wanted l w).1.state.missing_chunks ≡ false
  unfolding save_resume set_status set_error
  run_stays i wanted l w h =
      chunk_loop_inv (λ v. elem i v.state.missing_chunks ≡ false) wanted now pause_set load_chunk_fn
        (λ info b v here k.
          rw missing-take_chunk (elem-mark_completed_stays i info.index v.state k))
        (λ e v k. k) (λ v k. k) l w h

  stored_stays :
      (g : Str) (wanted : List ℕ) (l : List ChunkInfo) (w : Worker)
      → has_chunk w.store g ≡ true
      → has_chunk (run wanted l w).1.store g ≡ true
  unfolding save_resume set_status set_error
  stored_stays g wanted l w h =
      chunk_loop_inv (λ v. has_chunk v.store g ≡ true) wanted now pause_set load_chunk_fn
        (λ info b v here k. rw store-take_chunk (has_chunk-put_stays g info.chunk_hash b v.store k))
        (λ e v k. k) (λ v k. k) l w h

  -- What is in the store is what the fetches return.
  abbrev pub IsGenuine : Dict Bytes → Type 0
  IsGenuine store = (h : Str) (b : Bytes) → Dict.get store h ≡ some b → b ≡ content h

  put-IsGenuine :
      (h : Str) (store : Dict Bytes)
      → IsGenuine store
      → IsGenuine (if has_chunk store h then store else Dict.put store h (content h))
  put-IsGenuine h store ok = elim (Bool-cases (has_chunk store h)) [
    | inl there ↦ rw there ok
    | inr new ↦ rw new (λ g b e. elim (Bool-cases (str_eq h g)) [
      | inl same ↦
          let put : some (content h) ≡ some b =
            sym (get-put store h (content h) g ∙ rw same refl) ∙ e in
          sym (some-injective _ _ put) ∙ ap content ((str_eq_iff h g).0 same)
      | inr other ↦ ok g b (sym (get-put store h (content h) g ∙ rw other refl) ∙ e)
    ])
  ]

  run-IsGenuine :
      (wanted : List ℕ) (l : List ChunkInfo) (w : Worker)
      → IsGenuine w.store
      → IsGenuine (run wanted l w).1.store
  unfolding chunk_loop
  run-IsGenuine wanted [] w ok = ok
  run-IsGenuine wanted (info ∷ rest) w ok = elim (Bool-cases (elem info.index wanted)) [
    | inl here ↦ rw (run_here wanted info rest w here) (
        run-IsGenuine wanted rest (take_chunk now info (content info.chunk_hash) w)
          (rw store-take_chunk (put-IsGenuine info.chunk_hash w.store ok)))
    | inr skip ↦ rw (run_skip wanted info rest w skip) (run-IsGenuine wanted rest w ok)
  ]

  genuine_found :
      (store : Dict Bytes) (h : Str)
      → IsGenuine store
      → has_chunk store h ≡ true
      → Dict.get store h ≡ some (content h)
  unfolding has_chunk
  genuine_found store h ok there = elim (Option-cases (Dict.get store h)) [
    | inl gone ↦ absurd (true≢false (sym there ∙ rw (has_chunk, gone) refl))
    | inr (b, found) ↦ found ∙ ap (λ (x : Bytes). some x) (ok h b found)
  ]

  module _ (total : ℕ) (wanted : List ℕ) (below : (i : ℕ) → elem i wanted ≡ true → i < total) where
    run_clears_here :
        (info : ChunkInfo) (rest : List ChunkInfo) (w : Worker)
        → WorkerOk total w
        → elem info.index wanted ≡ true
        → elem info.index (run wanted (info ∷ rest) w).1.state.missing_chunks ≡ false
    run_clears_here info rest w ok here = rw (run_here wanted info rest w here) (
        run_stays info.index wanted rest _
          (rw missing-take_chunk (elem-mark_completed_self total info.index w ok)))

    run_stores_here :
        (info : ChunkInfo) (rest : List ChunkInfo) (w : Worker)
        → elem info.index wanted ≡ true
        → has_chunk (run wanted (info ∷ rest) w).1.store info.chunk_hash ≡ true
    run_stores_here info rest w here = rw (run_here wanted info rest w here) (
        stored_stays info.chunk_hash wanted rest _
          (rw store-take_chunk (has_chunk-put_self info.chunk_hash _ w.store)))

    -- A wanted index with a chunk in the list is no longer missing at the end.
    run_clears :
        (i : ℕ) (l : List ChunkInfo) (w : Worker)
        → WorkerOk total w
        → elem i wanted ≡ true
        → elem i (indices l) ≡ true
        → elem i (run wanted l w).1.state.missing_chunks ≡ false
    unfolding elem
    run_clears i [] w ok here m = ground arith
    run_clears i (info ∷ rest) w ok here m = elim (Bool-cases (info.index == i)) [
      | inl same ↦
          let e : info.index ≡ i = ground arith in
          subst (λ k. elem k (run wanted (info ∷ rest) w).1.state.missing_chunks ≡ false) e
            (run_clears_here info rest w ok (rw e here))
      | inr other ↦ elim (Bool-cases (elem info.index wanted)) [
        | inl visit ↦ rw (run_here wanted info rest w visit) (
            run_clears i rest _ (take_chunk-WorkerOk total now info _ w (below info.index visit) ok)
              here (ground arith))
        | inr skip ↦
            rw (run_skip wanted info rest w skip) (run_clears i rest w ok here (ground arith))
      ]
    ]

    -- The chunk of a wanted index is in the store at the end.
    run_stores :
        (c : ChunkInfo) (l : List ChunkInfo) (w : Worker)
        → elem c.index wanted ≡ true
        → Mem c l
        → has_chunk (run wanted l w).1.store c.chunk_hash ≡ true
    run_stores c [] w here m = absurd (not-mem-nil m)
    run_stores c (info ∷ rest) w here m =
        Or.elim (Bool-set _ _) (eq-or-mem_of_mem-cons m)
          (λ same. rw same (run_stores_here info rest w (rw same at here)))
          (λ later. elim (Bool-cases (elem info.index wanted)) [
            | inl visit ↦ rw (run_here wanted info rest w visit) (run_stores c rest _ here later)
            | inr skip ↦ rw (run_skip wanted info rest w skip) (run_stores c rest w here later)
          ])

  -- Neither paused nor cancelled, with every fetch returning and a chunk in the manifest for
  -- each missing index, and with the chunks that are not missing in the store, where nothing is but
  -- what the fetches return, the worker reaches the merge with every chunk of the manifest in the
  -- store, as it was fetched. If the merge succeeds on such a store, the download is completed: no
  -- chunk is missing, every index below the total is completed once, and no `.resume` file is left.
  pub download_worker_completes :
      (total : ℕ) (manifest : FileManifest) (merge : Dict Bytes → Merged) (w : Worker)
      → WorkerOk total w
      → ((i : ℕ) → elem i w.state.missing_chunks ≡ true → elem i (indices manifest.chunks) ≡ true)
      → ((c : ChunkInfo)
          → Mem c manifest.chunks
          → elem c.index w.state.missing_chunks ≡ false
          → has_chunk w.store c.chunk_hash ≡ true)
      → IsGenuine w.store
      → ((store : Dict Bytes)
          → ((c : ChunkInfo)
              → Mem c manifest.chunks
              → Dict.get store c.chunk_hash ≡ some (content c.chunk_hash))
          → merge store ≡ merged)
      → IsCompleted total (download_worker now pause_set load_chunk_fn manifest merge w)
  unfolding download_worker
  download_worker_completes total manifest merge w ok covered present genuine merges =
      finish-IsCompleted total now merge _ _
        (chunk_loop-WorkerOk now pause_set load_chunk_fn total wanted ordered w below ok)
        (run_all_visited wanted ordered w)
        (nil_of_elem _ (λ i. elim (Bool-cases (elem i wanted)) [
          | inl here ↦
              run_clears total wanted below i ordered w ok here
                (rw (elem-sort_by i manifest.chunks) (covered i here))
          | inr gone ↦ run_stays i wanted ordered w gone
        ]))
        (merges _ (λ c m.
          genuine_found _ c.chunk_hash (run-IsGenuine wanted ordered w genuine)
            (elim (Bool-cases (elem c.index wanted)) [
              | inl here ↦
                  run_stores total wanted below c ordered w here
                    ((Perm.mem_iff (sort_by-perm by_index manifest.chunks)).1 m)
              | inr gone ↦ stored_stays c.chunk_hash wanted ordered w (present c m gone)
            ])))
    where
      wanted : List ℕ
      wanted = w.state.missing_chunks

      ordered : List ChunkInfo
      ordered = sort_by by_index manifest.chunks

      below : (i : ℕ) → elem i wanted ≡ true → i < total
      below i e = rw ok.total_kept at (lt_of_elem i ok.state e)
