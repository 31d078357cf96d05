-- ===== src/Merkle.antt =====
-- backend/file_engine/chunker.py: the Merkle tree over the chunk hashes, its audit proofs and
-- their check. `sha256_hash` (hashlib) is a parameter.
pub mod Levels
pub mod Complete
pub mod Inputs
pub mod Binding
mod Tests
use mathlib.Core.List.{foldl}
use distri_store.Prelude.{
  ℕ, zero, suc, ◌+◌, ◌/◌, Bool, ◌||◌, List, [], ◌∷◌, ◌++◌, Str, Bytes, encode, str_eq, length, ltb,
  ◌==◌, if◌then◌else◌,
}

pub data Position : Type 0 where
  left right : Position

-- One entry of a proof: a sibling's hash and the side on which it stands.
pub record ProofStep : Type 0 where
  pub hash : Str
  pub position : Position

-- `level[0]`; the loops below leave it only at a level that has an entry.
abbrev pub first : List Str → Str
first [] = []
first (h ∷ level) = h

module _ (sha256_hash : Bytes → Str) where
  -- `sha256_hash((left + right).encode())`
  abbrev pub node : Str → Str → Str
  node l r = sha256_hash (encode (l ++ r))

  -- The inner loop: the next level, where a last entry without a partner is its own partner.
  unfoldable pub pair_level : List Str → List Str
  pair_level [] = []
  pair_level (l ∷ []) = node l l ∷ []
  pair_level (l ∷ r ∷ rest) = node l r ∷ pair_level rest

  -- `while len(level) > 1`, on fuel.
  unfoldable pub climb : ℕ → List Str → List Str
  climb zero level = level
  climb (suc fuel) level =
      let above = climb fuel (pair_level level) in if ltb 1 (length level) then above else level

  unfoldable pub compute_merkle_root : List Str → Str
  compute_merkle_root [] = sha256_hash []
  compute_merkle_root (h ∷ []) = h
  compute_merkle_root (h ∷ g ∷ hashes) = first (climb (length (h ∷ g ∷ hashes)) (h ∷ g ∷ hashes))

  -- The sibling of entry `idx`, if the pair at `i` holds that entry.
  unfoldable pub sibling : ℕ → ℕ → Str → Str → List ProofStep
  sibling i idx l r =
      if i == idx || i + 1 == idx
      then (if idx == i
          then record { hash = r; position = right } ∷ []
          else record { hash = l; position = left } ∷ [])
      else []

  -- What the inner loop of the proof appends at one level, from the pair at `i` on.
  unfoldable pub level_proof : ℕ → ℕ → List Str → List ProofStep
  unfolding sibling
  level_proof i idx [] = []
  level_proof i idx (l ∷ []) = sibling i idx l l
  level_proof i idx (l ∷ r ∷ rest) = sibling i idx l r ++ level_proof (i + 2) idx rest

  unfoldable pub proof_loop : ℕ → List Str → ℕ → List ProofStep
  proof_loop zero level idx = []
  proof_loop (suc fuel) level idx =
      let rest = level_proof 0 idx level ++ proof_loop fuel (pair_level level) (idx / 2) in
      if ltb 1 (length level) then rest else []

  unfoldable pub compute_merkle_proof : List Str → ℕ → List ProofStep
  compute_merkle_proof hashes index =
      if ltb 1 (length hashes) then proof_loop (length hashes) hashes index else []

  unfoldable pub combine : Position → Str → Str → Str
  combine right current sibling_hash = node current sibling_hash
  combine left current sibling_hash = node sibling_hash current

  -- One round of the loop of `verify_merkle_proof`.
  unfoldable pub apply_step : Str → ProofStep → Str
  unfolding combine
  apply_step current step = combine step.position current step.hash

  unfoldable pub verify_merkle_proof : Str → List ProofStep → Str → Bool
  verify_merkle_proof chunk_hash proof merkle_root =
      str_eq (foldl apply_step chunk_hash proof) merkle_root
