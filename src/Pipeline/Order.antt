-- ===== src/Pipeline/Order.antt =====
-- The chunks that the pipeline seals: those of `chunk_file`, in order, under their hashes.
use distri_store.Prelude.{
  ℕ, suc, ◌≤◌, ◌≡◌, refl, Option, none, some, List, [], ◌∷◌, map, Str, Bytes, arith,
}
use distri_store.Prelude.Sort.{AtMost, IsSorted}
use distri_store.Manifest.{ChunkInfo}
use distri_store.Crypto.{Primitives, worker_encrypt_keyed}
use distri_store.Chunker.{Sealed, seal_chunk}
use distri_store.Chunker.Stream.{IsChunked}
use distri_store.Local.{LocalStore, save_chunk}
use distri_store.Local.Contents.{saved, AllNamed}
use distri_store.Pipeline.{by_index, store_all, seal_piped}

-- The chunks by their hashes, as they are stored.
abbrev pub entries : List Sealed → List (Str × Bytes)
entries [] = []
entries (s ∷ l) = (s.info.chunk_hash, s.bytes) ∷ entries l

abbrev pub infos : List Sealed → List ChunkInfo
infos l = map (λ (s : Sealed). s.info) l

-- The bytes of the chunks that are read.
abbrev pub blocks : List (ℕ × Bytes) → List Bytes
blocks l = map (λ c. c.1) l

-- `save_chunk` never raises here.
abbrev pub saving : ℕ → Str → Bytes → LocalStore → Option LocalStore
saving now h body s = some (save_chunk now h body s)

pub store_all-saving :
    (now : ℕ) (l : List Sealed) (s : LocalStore)
    → store_all (saving now) l s ≡ (saved now (entries l) s, none)
unfolding store_all
store_all-saving now [] s = refl
store_all-saving now (c ∷ l) s = store_all-saving now l (save_chunk now c.info.chunk_hash c.bytes s)

module _ (p : Primitives) where
  pub seal_piped_lem :
      (keys : Option (Bytes × Bytes)) (nonces : ℕ → Bytes) (c : ℕ × Bytes)
      → seal_piped p keys nonces c ≡ seal_chunk p keys nonces c
  unfolding seal_piped seal_chunk worker_encrypt_keyed
  seal_piped_lem none nonces c = refl
  seal_piped_lem (some ks) nonces c = refl

  pub map-seal_piped :
      (keys : Option (Bytes × Bytes)) (nonces : ℕ → Bytes) (l : List (ℕ × Bytes))
      → map (seal_piped p keys nonces) l ≡ map (seal_chunk p keys nonces) l
  map-seal_piped keys nonces [] = refl
  map-seal_piped keys nonces (c ∷ l) =
      rw (seal_piped_lem keys nonces c, map-seal_piped keys nonces l) refl

  module _ (keys : Option (Bytes × Bytes)) (nonces : ℕ → Bytes) where
    pub entries-AllNamed :
        (l : List (ℕ × Bytes)) → AllNamed p.sha256_hash (entries (map (seal_chunk p keys nonces) l))
    unfolding seal_chunk
    entries-AllNamed [] = tt
    entries-AllNamed (c ∷ l) = (refl, entries-AllNamed l)

    infos-AtMost :
        (n i : ℕ) (l : List (ℕ × Bytes)) (c : ChunkInfo)
        → c.index ≤ i
        → IsChunked n i l
        → AtMost by_index c (infos (map (seal_chunk p keys nonces) l))
    unfolding seal_chunk
    infos-AtMost n i [] c h k = tt
    infos-AtMost n i ((x, b) ∷ l) c h k =
        (let e : x ≡ i = k.0 in ground arith, infos-AtMost n (suc i) l c (omega arith) k.3)

    pub infos-IsSorted :
        (n i : ℕ) (l : List (ℕ × Bytes))
        → IsChunked n i l
        → IsSorted by_index (infos (map (seal_chunk p keys nonces) l))
    unfolding seal_chunk
    infos-IsSorted n i [] k = tt
    infos-IsSorted n i ((x, b) ∷ l) k = (
      infos-AtMost n (suc i) l (seal_chunk p keys nonces (x, b)).info
          (let e : x ≡ i = k.0 in let le : x ≤ suc i = omega arith in le) k.3,
      infos-IsSorted n (suc i) l k.3,
    )
