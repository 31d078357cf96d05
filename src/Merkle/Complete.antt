-- ===== src/Merkle/Complete.antt =====
-- Every proof that `compute_merkle_proof` makes is accepted by `verify_merkle_proof`.
use mathlib.Core.List.{foldl, foldl-append}
use native.Mathlib.Nat.{zero-add}
use distri_store.Prelude.{
  ℕ, zero, suc, ◌/◌, ◌≤◌, ◌<◌, ◌≡◌, true, some, inl, inr, List, [], ◌∷◌, Str, Bytes,
  str_eq_complete, length, get_elem?, ltb, Bool-cases, arith,
}
use distri_store.Merkle.{
  first, pair_level, climb, proof_loop, apply_step, compute_merkle_root, compute_merkle_proof,
  verify_merkle_proof,
}
use distri_store.Merkle.Levels.{length-pair_level, level_proof-path}

single :
    (level : List Str) (idx : ℕ) {h : Str}
    → length level ≤ 1
    → get_elem? level idx ≡ some h
    → h ≡ first level
single [] idx k e = ground arith
single (g ∷ []) zero k e = ground arith
single (g ∷ []) (suc idx) k e = ground arith
single (g ∷ f ∷ level) idx k e = absurd (omega arith)

lt_of_get_elem? :
    (level : List Str) (idx : ℕ) {h : Str} → get_elem? level idx ≡ some h → idx < length level
lt_of_get_elem? [] idx e = ground arith
lt_of_get_elem? (g ∷ level) zero e = omega arith
lt_of_get_elem? (g ∷ level) (suc idx) e = omega (arith, lt_of_get_elem? level idx e)

module _ (sha256_hash : Bytes → Str) where
  -- The steps of a proof lead from the entry to the root of the loop.
  proof_loop-climb :
      (fuel : ℕ) (level : List Str) (idx : ℕ) {h : Str}
      → length level ≤ suc fuel
      → get_elem? level idx ≡ some h
      → foldl (apply_step sha256_hash) h (proof_loop sha256_hash fuel level idx)
        ≡ first (climb sha256_hash fuel level)
  unfolding proof_loop climb
  proof_loop-climb zero level idx k e = single level idx k e
  proof_loop-climb (suc fuel) level idx {h} k e = elim (Bool-cases (ltb 1 (length level))) [
    | inr done ↦ rw done (single level idx (ground arith) e)
    | inl more ↦
        rw (more, foldl-append)
          (proof_loop-climb fuel (pair_level sha256_hash level) (idx / 2)
            (ground (arith, length-pair_level sha256_hash level))
            (rw zero-add at (level_proof-path sha256_hash 0 idx level e)))
  ]

  -- For every list of hashes and every index in it, the computed proof is accepted for the
  -- hash at that index against the computed root.
  pub verify-compute_merkle_proof :
      (hashes : List Str) (index : ℕ) {h : Str}
      → get_elem? hashes index ≡ some h
      → verify_merkle_proof sha256_hash h
          (compute_merkle_proof sha256_hash hashes index)
          (compute_merkle_root sha256_hash hashes)
        ≡ true
  unfolding verify_merkle_proof compute_merkle_proof compute_merkle_root
  verify-compute_merkle_proof [] index e = ground arith
  verify-compute_merkle_proof (g ∷ []) index e =
      str_eq_complete _ _ (single (g ∷ []) index (omega arith) e)
  verify-compute_merkle_proof (g ∷ f ∷ hashes) index e =
      let level = g ∷ f ∷ hashes in
      let two : ltb 1 (length level) ≡ true = ground arith in
      str_eq_complete _ _ (rw two (proof_loop-climb (length level) level index (omega arith) e))
