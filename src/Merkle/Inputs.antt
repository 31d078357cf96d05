-- ===== src/Merkle/Inputs.antt =====
-- What SHA-256 is given while a root is computed or a proof is checked, and two different inputs
-- among these with one digest.
use distri_store.Prelude.{
  ℕ, zero, suc, ◌≡◌, ◌≢◌, ◌⊎◌, inl, inr, List, [], ◌∷◌, ◌++◌, Str, Bytes, encode, length, ltb,
  if◌then◌else◌,
}
use distri_store.Merkle.{Position, left, right, ProofStep, pair_level, apply_step}

abbrev pub Among : Bytes → List Bytes → Type 0
Among x [] = ⊥
Among x (y ∷ l) = (x ≡ y) ⊎ Among x l

-- Two different inputs, one among each list, with one digest.
abbrev pub Clash : (Bytes → Str) → List Bytes → List Bytes → Type 0
Clash sha256_hash xs ys =
    (x : Bytes) × (y : Bytes) × Among x xs × Among y ys × (x ≢ y) × (sha256_hash x ≡ sha256_hash y)

-- The inputs for one level above.
unfoldable pub pair_inputs : List Str → List Bytes
pair_inputs [] = []
pair_inputs (l ∷ []) = encode (l ++ l) ∷ []
pair_inputs (l ∷ r ∷ rest) = encode (l ++ r) ∷ pair_inputs rest

module _ (sha256_hash : Bytes → Str) where
  -- The inputs for all levels above.
  unfoldable pub climb_inputs : ℕ → List Str → List Bytes
  unfolding pair_inputs
  climb_inputs zero level = []
  climb_inputs (suc fuel) level =
      let above = pair_inputs level ++ climb_inputs fuel (pair_level sha256_hash level) in
      if ltb 1 (length level) then above else []

  abbrev pub tree_inputs : List Str → List Bytes
  tree_inputs hashes = climb_inputs (length hashes) hashes

  abbrev pub step_input : Position → Str → Str → Bytes
  step_input right current sibling_hash = encode (current ++ sibling_hash)
  step_input left current sibling_hash = encode (sibling_hash ++ current)

  -- The inputs along a proof.
  unfoldable pub proof_inputs : Str → List ProofStep → List Bytes
  proof_inputs current [] = []
  proof_inputs current (s ∷ proof) =
      step_input s.position current s.hash ∷ proof_inputs (apply_step sha256_hash current s) proof

pub Among-append_left : (x : Bytes) (xs ys : List Bytes) → Among x xs → Among x (xs ++ ys)
Among-append_left x [] ys m = absurd m
Among-append_left x (y ∷ xs) ys (inl e) = inl e
Among-append_left x (y ∷ xs) ys (inr m) = inr (Among-append_left x xs ys m)

pub Among-append_right : (x : Bytes) (xs ys : List Bytes) → Among x ys → Among x (xs ++ ys)
Among-append_right x [] ys m = m
Among-append_right x (y ∷ xs) ys m = inr (Among-append_right x xs ys m)

-- A clash stays one among more inputs.
pub widen :
    (sha256_hash : Bytes → Str) (xs xs' ys ys' : List Bytes)
    → ((x : Bytes) → Among x xs → Among x xs')
    → ((y : Bytes) → Among y ys → Among y ys')
    → Clash sha256_hash xs ys
    → Clash sha256_hash xs' ys'
widen sha256_hash xs xs' ys ys' f g (x, y, m, n, differ, same) = (x, y, f x m, g y n, differ, same)

pub widen_tail :
    (sha256_hash : Bytes → Str) (x y : Bytes) (xs ys : List Bytes)
    → Clash sha256_hash xs ys
    → Clash sha256_hash (x ∷ xs) (y ∷ ys)
widen_tail sha256_hash x y xs ys =
    widen sha256_hash xs (x ∷ xs) ys (y ∷ ys) (λ z m. inr m) (λ z m. inr m)

pub widen_head :
    (sha256_hash : Bytes → Str) (x y : Bytes) (xs ys : List Bytes)
    → Clash sha256_hash (x ∷ []) (y ∷ [])
    → Clash sha256_hash (x ∷ xs) (y ∷ ys)
widen_head sha256_hash x y xs ys =
    widen sha256_hash (x ∷ []) (x ∷ xs) (y ∷ []) (y ∷ ys) (λ z m. Among-append_left z (x ∷ []) xs m)
      (λ z m. Among-append_left z (y ∷ []) ys m)
