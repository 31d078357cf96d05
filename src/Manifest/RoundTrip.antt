-- ===== src/Manifest/RoundTrip.antt =====
-- `to_dict` and `from_dict`; the audit proofs of a manifest against its root.
use distri_store.Prelude.{
  ℕ, ◌≡◌, ◌≢◌, ◌⊎◌, inl, inr, refl, ap, true, some, List, [], ◌∷◌, map, Str, Bytes, get_elem?, zero,
  suc, str_eq_iff, Option-cases, arith,
}
use distri_store.Merkle.{compute_merkle_root, verify_merkle_proof}
use distri_store.Merkle.Complete.{verify-compute_merkle_proof}
use distri_store.Manifest.{
  ChunkInfo, FileManifest, chunk_to_dict, to_dict, chunks_from_dicts, fill_root, from_dict,
  get_merkle_proof, verify_chunk, hashes,
}

pub chunks_from_dicts-map :
    (cs : List ChunkInfo) → chunks_from_dicts (map chunk_to_dict cs) ≡ some cs
unfolding chunks_from_dicts chunk_to_dict
chunks_from_dicts-map [] = refl
chunks_from_dicts-map (c ∷ cs) = rw (chunks_from_dicts-map cs)

module _ (sha256_hash : Bytes → Str) where
  -- `fill_root` leaves a manifest alone that has a root or no chunks.
  fill_root_idle :
      (m : FileManifest) → (m.merkle_root ≢ []) ⊎ (m.chunks ≡ []) → fill_root sha256_hash m ≡ m
  unfolding fill_root
  fill_root_idle m h = ground arith

  -- Reading back what `to_dict` writes gives the manifest, if it has a root or no chunks.
  pub from_dict-to_dict :
      (m : FileManifest)
      → (m.merkle_root ≢ []) ⊎ (m.chunks ≡ [])
      → from_dict sha256_hash (to_dict m) ≡ some m
  unfolding from_dict to_dict
  from_dict-to_dict m h = rw (chunks_from_dicts-map m.chunks) (ap some (fill_root_idle m h))

  hash_of_chunk :
      (cs : List ChunkInfo) (i : ℕ) {c : ChunkInfo}
      → get_elem? cs i ≡ some c
      → get_elem? (map (λ (c : ChunkInfo). c.chunk_hash) cs) i ≡ some c.chunk_hash
  hash_of_chunk [] i e = ground arith
  hash_of_chunk (d ∷ cs) zero e = ground arith
  hash_of_chunk (d ∷ cs) (suc i) e = hash_of_chunk cs i e

  -- A chunk hash that `verify_chunk` accepts at an index has a Merkle proof, the one of
  -- `get_merkle_proof`, that is accepted against the root over the manifest's chunks.
  pub verify_chunk-get_merkle_proof :
      (m : FileManifest) (index : ℕ) (h : Str)
      → verify_chunk m index h ≡ true
      → verify_merkle_proof sha256_hash h
          (get_merkle_proof sha256_hash m index)
          (compute_merkle_root sha256_hash (hashes m))
        ≡ true
  unfolding verify_chunk get_merkle_proof
  verify_chunk-get_merkle_proof m index h e = elim (Option-cases (get_elem? m.chunks index)) [
    | inl missing ↦ ground arith
    | inr (c, found) ↦
        let same : c.chunk_hash ≡ h = ground (arith, str_eq_iff c.chunk_hash h) in
        verify-compute_merkle_proof sha256_hash (hashes m) index
          (rw same at (hash_of_chunk m.chunks index found))
  ]
