-- ===== src/Merkle/Levels.antt =====
-- One level of the Merkle tree: its length, the path of an entry through it, and the loop's end.
use mathlib.Core.List.{foldl}
use distri_store.Prelude.{
  ℕ, zero, suc, ◌+◌, ◌/◌, ◌≤◌, ◌<◌, ◌≡◌, refl, some, List, [], ◌∷◌, Str, Bytes, length, get_elem?,
  arith,
}
use distri_store.Merkle.{left, right, pair_level, climb, sibling, level_proof, apply_step}

module _ (sha256_hash : Bytes → Str) where
  pub length-pair_level :
      (level : List Str) → length (pair_level sha256_hash level) ≡ (length level + 1) / 2
  unfolding pair_level
  length-pair_level [] = refl
  length-pair_level (l ∷ []) = refl
  length-pair_level (l ∷ r ∷ rest) = omega (arith, length-pair_level rest)

  -- With fuel for its length the loop ends at a single entry.
  pub length-climb :
      (fuel : ℕ) (level : List Str)
      → 0 < length level
      → length level ≤ suc fuel
      → length (climb sha256_hash fuel level) ≡ 1
  unfolding climb
  length-climb zero level h k = omega arith
  length-climb (suc fuel) level h k =
      ground (arith, length-pair_level level, length-climb fuel (pair_level sha256_hash level))

  -- Past the entry a level adds nothing to the proof.
  pub level_proof_past :
      (i idx : ℕ) (level : List Str) → idx < i → level_proof sha256_hash i idx level ≡ []
  unfolding level_proof
  level_proof_past i idx [] h = refl
  level_proof_past i idx (l ∷ []) h = ground arith
  level_proof_past i idx (l ∷ r ∷ rest) h = ground (arith, level_proof_past (i + 2) idx rest)

  sibling_left :
      (i : ℕ) (l r : Str)
      → sibling sha256_hash i (i + 0) l r ≡ record { hash = r; position = right } ∷ []
  unfolding sibling
  sibling_left i l r = ground arith

  sibling_right :
      (i : ℕ) (l r : Str)
      → sibling sha256_hash i (i + 1) l r ≡ record { hash = l; position = left } ∷ []
  unfolding sibling
  sibling_right i l r = ground arith

  sibling_past : (i k : ℕ) (l r : Str) → sibling sha256_hash i (i + suc (suc k)) l r ≡ []
  unfolding sibling
  sibling_past i k l r = ground arith

  -- The steps of one level carry the entry to its parent, at half its position.
  pub level_proof-path :
      (i idx : ℕ) (level : List Str) {h : Str}
      → get_elem? level idx ≡ some h
      → get_elem? (pair_level sha256_hash level) (idx / 2)
        ≡ some (foldl (apply_step sha256_hash) h (level_proof sha256_hash i (i + idx) level))
  unfolding level_proof pair_level apply_step
  level_proof-path i idx [] e = ground arith
  level_proof-path i zero (l ∷ []) e = rw (sibling_left i l l) (ground arith)
  level_proof-path i (suc idx) (l ∷ []) e = ground arith
  level_proof-path i zero (l ∷ r ∷ rest) e =
      rw (sibling_left i l r, level_proof_past (i + 2) (i + 0) rest (omega arith)) (ground arith)
  level_proof-path i (suc zero) (l ∷ r ∷ rest) e =
      rw (sibling_right i l r, level_proof_past (i + 2) (i + 1) rest (omega arith)) (ground arith)
  level_proof-path i (suc (suc idx)) (l ∷ r ∷ rest) e =
      let half : suc (suc idx) / 2 ≡ suc (idx / 2) = omega arith in
      let at : i + suc (suc idx) ≡ i + 2 + idx = omega arith in
      rw (sibling_past i idx l r, half, at) (level_proof-path (i + 2) idx rest e)
