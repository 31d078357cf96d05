-- ===== src/Merkle/Binding.antt =====
-- The Merkle root binds the hashes under it: two lists with one root, or a proof for another
-- hash, exhibit two inputs of SHA-256 with one digest.
use mathlib.Core.Bool.{false≢true}
use mathlib.Core.List.{foldl}
use distri_store.Prelude.{
  ℕ, zero, suc, ◌≡◌, ◌≢◌, refl, sym, ap, ◌∙◌, ◌⊎◌, inl, inr, true, List, [], ◌∷◌, ◌++◌, map, Str,
  Bytes, encode, encode_ascii, IsAscii, append-IsAscii, str_eq, str_eq_iff, length, ltb, Bool-cases,
  arith,
}
use distri_store.Merkle.{
  Position, left, right, ProofStep, first, node, pair_level, climb, combine, apply_step,
  compute_merkle_root, verify_merkle_proof,
}
use distri_store.Merkle.Inputs.{
  Clash, pair_inputs, climb_inputs, tree_inputs, step_input, proof_inputs, Among-append_left,
  Among-append_right, widen, widen_tail, widen_head,
}
use distri_store.Merkle.Levels.{length-pair_level, length-climb}

-- What `hashlib` documents of `sha256(data).hexdigest()`: 64 hexadecimal digits.
pub record IsHexDigest (s : Str) : Type 0 where
  pub size : length s ≡ 64
  pub ascii : IsAscii s

abbrev pub AllDigests : List Str → Type 0
AllDigests [] = Unit
AllDigests (h ∷ hs) = IsHexDigest h × AllDigests hs

-- Two different inputs with one digest.
abbrev pub Collision : (Bytes → Str) → Type 0
Collision sha256_hash = (x : Bytes) × (y : Bytes) × (x ≢ y) × (sha256_hash x ≡ sha256_hash y)

append_split : (a b c d : Str) → length a ≡ length c → a ++ b ≡ c ++ d → (a ≡ c) × (b ≡ d)
append_split [] b [] d k e = (refl, e)
append_split [] b (y ∷ c) d k e = absurd (omega arith)
append_split (x ∷ a) b [] d k e = absurd (omega arith)
append_split (x ∷ a) b (y ∷ c) d k e =
    let (p, q) = append_split a b c d (omega arith) (cc) in (cc, q)

module _ (sha256_hash : Bytes → Str) (hex : (b : Bytes) → IsHexDigest (sha256_hash b)) where
  node_binding :
      (a b c d : Str)
      → IsHexDigest a
      → IsHexDigest b
      → IsHexDigest c
      → IsHexDigest d
      → node sha256_hash a b ≡ node sha256_hash c d
      → ((a ≡ c) × (b ≡ d)) ⊎ Clash sha256_hash (encode (a ++ b) ∷ []) (encode (c ++ d) ∷ [])
  node_binding a b c d ha hb hc hd e =
      elim (Bool-cases (str_eq (encode (a ++ b)) (encode (c ++ d)))) [
        | inl same ↦ inl (
            append_split a b c d (ha.size ∙ sym hc.size) (
              sym (encode_ascii (a ++ b) (append-IsAscii a b ha.ascii hb.ascii))
              ∙ (str_eq_iff _ _).0 same
              ∙ encode_ascii (c ++ d) (append-IsAscii c d hc.ascii hd.ascii)))
        | inr differ ↦ inr (
          encode (a ++ b),
          encode (c ++ d),
          inl refl,
          inl refl,
          (λ p. false≢true (sym differ ∙ (str_eq_iff _ _).1 p)),
          e,
        )
      ]

  pair_level-AllDigests : (level : List Str) → AllDigests (pair_level sha256_hash level)
  unfolding pair_level
  pair_level-AllDigests [] = tt
  pair_level-AllDigests (l ∷ []) = (hex _, tt)
  pair_level-AllDigests (l ∷ r ∷ rest) = (hex _, pair_level-AllDigests rest)

  pair_level_binding :
      (xs ys : List Str)
      → AllDigests xs
      → AllDigests ys
      → length xs ≡ length ys
      → pair_level sha256_hash xs ≡ pair_level sha256_hash ys
      → (xs ≡ ys) ⊎ Clash sha256_hash (pair_inputs xs) (pair_inputs ys)
  unfolding pair_level pair_inputs
  pair_level_binding [] [] hx hy k e = inl refl
  pair_level_binding (x ∷ []) (y ∷ []) hx hy k e =
      elim (node_binding x x y y hx.0 hx.0 hy.0 hy.0 (cc)) [
        | inl same ↦ inl (ap (λ (t : Str). t ∷ []) same.0)
        | inr bad ↦ inr bad
      ]
  pair_level_binding (x ∷ x' ∷ xs) (y ∷ y' ∷ ys) hx hy k e =
      elim (node_binding x x' y y' hx.0 hx.1.0 hy.0 hy.1.0 (cc)) [
        | inl same ↦ elim (pair_level_binding xs ys hx.1.1 hy.1.1 (omega arith) (cc)) [
          | inl rest ↦ inl (cc)
          | inr bad ↦ inr (
              widen_tail sha256_hash (encode (x ++ x')) (encode (y ++ y')) (pair_inputs xs)
                (pair_inputs ys) bad)
        ]
        | inr bad ↦ inr (
            widen_head sha256_hash (encode (x ++ x')) (encode (y ++ y')) (pair_inputs xs)
              (pair_inputs ys) bad)
      ]
  pair_level_binding _ _ hx hy k e = absurd (omega arith)

  climb_binding :
      (fuel : ℕ) (xs ys : List Str)
      → AllDigests xs
      → AllDigests ys
      → length xs ≡ length ys
      → climb sha256_hash fuel xs ≡ climb sha256_hash fuel ys
      → (xs ≡ ys)
        ⊎ Clash sha256_hash (climb_inputs sha256_hash fuel xs) (climb_inputs sha256_hash fuel ys)
  unfolding climb climb_inputs
  climb_binding zero xs ys hx hy k e = inl e
  climb_binding (suc fuel) xs ys hx hy k e = elim (Bool-cases (ltb 1 (length xs))) [
    | inl more ↦
        let more' : ltb 1 (length ys) ≡ true = ground (arith, more) in
        let up = climb_inputs sha256_hash fuel (pair_level sha256_hash xs) in
        let up' = climb_inputs sha256_hash fuel (pair_level sha256_hash ys) in
        rw (climb_inputs, more, more')
          (elim (climb_binding fuel (pair_level sha256_hash xs) (pair_level sha256_hash ys)
            (pair_level-AllDigests xs) (pair_level-AllDigests ys)
            (omega (arith, length-pair_level sha256_hash xs, length-pair_level sha256_hash ys))
            (ground arith)) [
              | inl same ↦ elim (pair_level_binding xs ys hx hy k same) [
                | inl same ↦ inl same
                | inr bad ↦ inr (
                    widen sha256_hash (pair_inputs xs) (pair_inputs xs ++ up) (pair_inputs ys)
                      (pair_inputs ys ++ up') (λ z m. Among-append_left z (pair_inputs xs) up m)
                      (λ z m. Among-append_left z (pair_inputs ys) up' m) bad)
              ]
              | inr bad ↦ inr (
                  widen sha256_hash up (pair_inputs xs ++ up) up' (pair_inputs ys ++ up')
                    (λ z m. Among-append_right z (pair_inputs xs) up m)
                    (λ z m. Among-append_right z (pair_inputs ys) up' m) bad)
            ])
    | inr done ↦ inl (ground arith)
  ]

  first_eq : (xs ys : List Str) → length xs ≡ 1 → length ys ≡ 1 → first xs ≡ first ys → xs ≡ ys
  first_eq (x ∷ []) (y ∷ []) kx ky e = ap (λ (t : Str). t ∷ []) e
  first_eq (x ∷ x' ∷ xs) ys kx ky e = absurd (omega arith)
  first_eq [] ys kx ky e = absurd (omega arith)
  first_eq (x ∷ []) [] kx ky e = absurd (omega arith)
  first_eq (x ∷ []) (y ∷ y' ∷ ys) kx ky e = absurd (omega arith)

  -- Two lists of as many digests with one Merkle root are the same list, or among what is hashed for
  -- the two roots there are two different inputs of SHA-256, one for each root, with one digest. (A
  -- digest has 64 ASCII characters.)
  pub compute_merkle_root_binding :
      (xs ys : List Str)
      → AllDigests xs
      → AllDigests ys
      → length xs ≡ length ys
      → compute_merkle_root sha256_hash xs ≡ compute_merkle_root sha256_hash ys
      → (xs ≡ ys) ⊎ Clash sha256_hash (tree_inputs sha256_hash xs) (tree_inputs sha256_hash ys)
  unfolding compute_merkle_root
  compute_merkle_root_binding [] [] hx hy k e = inl refl
  compute_merkle_root_binding (x ∷ []) (y ∷ []) hx hy k e = inl (ap (λ (t : Str). t ∷ []) e)
  compute_merkle_root_binding (x ∷ x' ∷ xs) (y ∷ y' ∷ ys) hx hy k e =
      let n = length (x ∷ x' ∷ xs) in
      let same : length (y ∷ y' ∷ ys) ≡ n = sym k in
      rw same (
        climb_binding n (x ∷ x' ∷ xs) (y ∷ y' ∷ ys) hx hy k (
          first_eq _ _ (length-climb sha256_hash n (x ∷ x' ∷ xs) (omega arith) (omega arith))
            (length-climb sha256_hash n (y ∷ y' ∷ ys) (omega arith) (omega arith)) (rw same at e)))
  compute_merkle_root_binding _ _ hx hy k e = absurd (omega arith)

  abbrev AllSteps : List ProofStep → Type 0
  AllSteps [] = Unit
  AllSteps (s ∷ p) = IsHexDigest s.hash × AllSteps p

  combine_binding :
      (p q : Position) (a b x y : Str)
      → IsHexDigest a
      → IsHexDigest b
      → IsHexDigest x
      → IsHexDigest y
      → p ≡ q
      → combine sha256_hash p a x ≡ combine sha256_hash q b y
      → (a ≡ b)
        ⊎ Clash sha256_hash (step_input sha256_hash p a x ∷ []) (step_input sha256_hash q b y ∷ [])
  unfolding combine
  combine_binding right right a b x y ha hb hx hy k e = elim (node_binding a x b y ha hx hb hy e) [
    | inl same ↦ inl same.0
    | inr bad ↦ inr bad
  ]
  combine_binding left left a b x y ha hb hx hy k e = elim (node_binding x a y b hx ha hy hb e) [
    | inl same ↦ inl same.1
    | inr bad ↦ inr bad
  ]
  combine_binding left right a b x y ha hb hx hy k e = absurd (cc)
  combine_binding right left a b x y ha hb hx hy k e = absurd (cc)

  combine-IsHexDigest : (p : Position) (a x : Str) → IsHexDigest (combine sha256_hash p a x)
  unfolding combine
  combine-IsHexDigest right a x = hex _
  combine-IsHexDigest left a x = hex _

  fold_binding :
      (a b : Str) (p q : List ProofStep)
      → IsHexDigest a
      → IsHexDigest b
      → AllSteps p
      → AllSteps q
      → map (λ s. s.position) p ≡ map (λ s. s.position) q
      → foldl (apply_step sha256_hash) a p ≡ foldl (apply_step sha256_hash) b q
      → (a ≡ b) ⊎ Clash sha256_hash (proof_inputs sha256_hash a p) (proof_inputs sha256_hash b q)
  unfolding apply_step proof_inputs
  fold_binding a b [] [] ha hb hp hq k e = inl e
  fold_binding a b [] (t ∷ q) ha hb hp hq k e = absurd (cc)
  fold_binding a b (s ∷ p) [] ha hb hp hq k e = absurd (cc)
  fold_binding a b (s ∷ p) (t ∷ q) ha hb hp hq k e =
      elim (fold_binding (apply_step sha256_hash a s) (apply_step sha256_hash b t) p q
        (combine-IsHexDigest s.position a s.hash) (combine-IsHexDigest t.position b t.hash) hp.1
        hq.1 (cc) e) [
          | inl same ↦
              elim (combine_binding s.position t.position a b s.hash t.hash ha hb hp.0 hq.0 (cc)
                same) [
                  | inl same ↦ inl same
                  | inr bad ↦ inr (
                      widen_head sha256_hash (step_input sha256_hash s.position a s.hash)
                        (step_input sha256_hash t.position b t.hash)
                        (proof_inputs sha256_hash (apply_step sha256_hash a s) p)
                        (proof_inputs sha256_hash (apply_step sha256_hash b t) q) bad)
                ]
          | inr bad ↦ inr (
              widen_tail sha256_hash (step_input sha256_hash s.position a s.hash)
                (step_input sha256_hash t.position b t.hash)
                (proof_inputs sha256_hash (apply_step sha256_hash a s) p)
                (proof_inputs sha256_hash (apply_step sha256_hash b t) q) bad)
        ]

  -- Two proofs for digests, of steps that are digests and have the same sides, that are accepted
  -- against one root are for the same hash; or among what is hashed to check the two there are two
  -- different inputs of SHA-256, one for each proof, with one digest. (A digest has 64 ASCII
  -- characters.)
  pub verify_merkle_proof_binding :
      (a b : Str) (p q : List ProofStep) (root : Str)
      → IsHexDigest a
      → IsHexDigest b
      → AllSteps p
      → AllSteps q
      → map (λ s. s.position) p ≡ map (λ s. s.position) q
      → verify_merkle_proof sha256_hash a p root ≡ true
      → verify_merkle_proof sha256_hash b q root ≡ true
      → (a ≡ b) ⊎ Clash sha256_hash (proof_inputs sha256_hash a p) (proof_inputs sha256_hash b q)
  unfolding verify_merkle_proof
  verify_merkle_proof_binding a b p q root ha hb hp hq k e f =
      fold_binding a b p q ha hb hp hq k ((str_eq_iff _ _).0 e ∙ sym ((str_eq_iff _ _).0 f))
