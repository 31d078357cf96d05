-- ===== src/Download/Progress.antt =====
-- What a step of the worker keeps, and what a chunk that is fetched adds.
use distri_store.Prelude.{
  ℕ, ◌≡◌, refl, ap, ◌∙◌, true, false, ◌||◌, List, [], ◌∷◌, map, Str, Bytes, str_eq_iff, ◌==◌, arith,
  if◌then◌else◌,
}
use distri_store.Prelude.Count.{elem, elem-count, remove_first, count-remove_first}
use distri_store.Prelude.Dict
use distri_store.Prelude.Dict.{Dict, get-put}
use distri_store.Prelude.Sort.{insert_by, sort_by}
use distri_store.Manifest.{ChunkInfo}
use distri_store.Download.{DownloadState, mark_completed}
use distri_store.Download.Partition.{WorkerOk}
use distri_store.Download.Worker.{Worker, has_chunk, flush_due, take_chunk, by_index}

-- The indices of the chunks.
abbrev pub indices : List ChunkInfo → List ℕ
indices = map (λ c. c.index)

elem-insert_by :
    (i : ℕ) (x : ChunkInfo) (l : List ChunkInfo)
    → elem i (indices (insert_by by_index x l)) ≡ elem i (indices (x ∷ l))
unfolding insert_by elem
elem-insert_by i x [] = refl
elem-insert_by i x (y ∷ l) = ground (arith, elem-insert_by i x l)

pub elem-sort_by :
    (i : ℕ) (l : List ChunkInfo) → elem i (indices (sort_by by_index l)) ≡ elem i (indices l)
unfolding sort_by elem
elem-sort_by i [] = refl
elem-sort_by i (x ∷ l) =
    elem-insert_by i x (sort_by by_index l) ∙ ap (λ b. x.index == i || b) (elem-sort_by i l)

pub nil_of_elem : (l : List ℕ) → ((i : ℕ) → elem i l ≡ false) → l ≡ []
unfolding elem
nil_of_elem [] h = refl
nil_of_elem (x ∷ l) h = ground (arith, h x)

-- Neither the flush nor a status changes what is missing or stored.
pub missing-take_chunk :
    (now : ℕ) (info : ChunkInfo) (b : Bytes) (w : Worker)
    → (take_chunk now info b w).state.missing_chunks
      ≡ (mark_completed info.index w.state).missing_chunks
unfolding take_chunk flush_due
missing-take_chunk now info b w = ground arith

pub store-take_chunk :
    (now : ℕ) (info : ChunkInfo) (b : Bytes) (w : Worker)
    → (take_chunk now info b w).store
      ≡ (if has_chunk w.store info.chunk_hash then w.store else Dict.put w.store info.chunk_hash b)
unfolding take_chunk flush_due
store-take_chunk now info b w = ground arith

pub elem-mark_completed_stays :
    (i j : ℕ) (s : DownloadState)
    → elem i s.missing_chunks ≡ false
    → elem i (mark_completed j s).missing_chunks ≡ false
unfolding mark_completed
elem-mark_completed_stays i j s h = ground (
  arith,
  elem-count i s.missing_chunks,
  elem-count j s.missing_chunks,
  elem-count i (remove_first j s.missing_chunks),
  count-remove_first j i s.missing_chunks,
)

pub elem-mark_completed_self :
    (total i : ℕ) (w : Worker)
    → WorkerOk total w
    → elem i (mark_completed i w.state).missing_chunks ≡ false
unfolding mark_completed
elem-mark_completed_self total i w h = ground (
  arith,
  h.state.each i,
  elem-count i w.state.missing_chunks,
  elem-count i (remove_first i w.state.missing_chunks),
  count-remove_first i i w.state.missing_chunks,
)

pub has_chunk-put_self :
    (h : Str) (b : Bytes) (d : Dict Bytes)
    → has_chunk (if has_chunk d h then d else Dict.put d h b) h ≡ true
unfolding has_chunk
has_chunk-put_self h b d = ground (arith, get-put d h b h, str_eq_iff h h)

pub has_chunk-put_stays :
    (g h : Str) (b : Bytes) (d : Dict Bytes)
    → has_chunk d g ≡ true
    → has_chunk (if has_chunk d h then d else Dict.put d h b) g ≡ true
unfolding has_chunk
has_chunk-put_stays g h b d e = ground (arith, get-put d h b g, str_eq_iff h g)
