-- ===== src/Local/Contents.antt =====
-- Chunks that are saved under their hashes, and loaded again.
use distri_store.Prelude.{
  ℕ, ◌≡◌, ◌⊎◌, refl, sym, ap, ◌∙◌, Option, some, List, [], ◌∷◌, Str, Bytes, str_eq, str_eq_iff, inl,
  inr, Bool-cases, if◌then◌else◌,
}
use distri_store.Prelude.Dict.{get-put}
use distri_store.Merkle.Binding.{Collision}
use distri_store.Local.{ChunkFile, LocalStore, save_chunk, load_chunk}

-- The entries, saved one after the other.
abbrev pub saved : ℕ → List (Str × Bytes) → LocalStore → LocalStore
saved now [] s = s
saved now ((h, body) ∷ l) s = saved now l (save_chunk now h body s)

-- Every entry is found by its hash.
abbrev pub HoldsAll : (Str → Option Bytes) → List (Str × Bytes) → Type 0
HoldsAll load [] = Unit
HoldsAll load ((h, body) ∷ l) = (load h ≡ some body) × HoldsAll load l

pub load_chunk-save_chunk :
    (now : ℕ) (k : Str) (body : Bytes) (s : LocalStore) (h : Str)
    → load_chunk h (save_chunk now k body s) ≡ (if str_eq k h then some body else load_chunk h s)
unfolding load_chunk save_chunk
load_chunk-save_chunk now k body s h =
    let file : ChunkFile = record { body = body; accessed = now } in
    let found = get-put s.files k file h in
    elim (Bool-cases (str_eq k h)) [
      | inl same ↦ rw (found, same) refl
      | inr other ↦ rw (found, other) refl
    ]

module _ (sha256_hash : Bytes → Str) where
  -- Every entry stands under the hash of its bytes.
  abbrev pub AllNamed : List (Str × Bytes) → Type 0
  AllNamed [] = Unit
  AllNamed ((h, body) ∷ l) = (h ≡ sha256_hash body) × AllNamed l

  -- Bytes that stand under one hash are the same, or collide.
  same_or_collide :
      (h : Str) (a b : Bytes)
      → h ≡ sha256_hash a
      → h ≡ sha256_hash b
      → (a ≡ b) ⊎ Collision sha256_hash
  same_or_collide h a b ha hb = elim (Bool-cases (str_eq a b)) [
    | inl same ↦ inl ((str_eq_iff a b).0 same)
    | inr other ↦ inr (a, b, (λ e. cc (sym other ∙ (str_eq_iff a b).1 e)), sym ha ∙ hb)
  ]

  kept :
      (now : ℕ) (l : List (Str × Bytes)) (s : LocalStore) (h : Str) (body : Bytes)
      → AllNamed l
      → h ≡ sha256_hash body
      → load_chunk h s ≡ some body
      → (load_chunk h (saved now l s) ≡ some body) ⊎ Collision sha256_hash
  kept now [] s h body all e found = inl found
  kept now ((k, c) ∷ l) s h body all e found =
      let after = load_chunk-save_chunk now k c s h in
      elim (Bool-cases (str_eq k h)) [
        | inr other ↦ kept now l _ h body all.1 e (after ∙ rw other found)
        | inl same ↦
            let key : k ≡ h = (str_eq_iff k h).0 same in
            elim (same_or_collide h body c e (sym key ∙ all.0)) [
              | inr bad ↦ inr bad
              | inl eq ↦
                  kept now l _ h body all.1 e (after ∙ (rw same refl ∙ ap (λ b. some b) (sym eq)))
            ]
      ]

  -- What is saved under its hashes is found by them, whatever was there and is saved later, unless
  -- the hash has a collision.
  pub saved-HoldsAll :
      (now : ℕ) (l : List (Str × Bytes)) (s : LocalStore)
      → AllNamed l
      → HoldsAll (λ h. load_chunk h (saved now l s)) l ⊎ Collision sha256_hash
  saved-HoldsAll now [] s all = inl tt
  saved-HoldsAll now ((h, body) ∷ l) s all =
      let here : load_chunk h (save_chunk now h body s) ≡ some body =
        load_chunk-save_chunk now h body s h ∙ rw ((str_eq_iff h h).1 refl) refl in
      elim (kept now l (save_chunk now h body s) h body all.1 all.0 here) [
        | inr bad ↦ inr bad
        | inl found ↦ elim (saved-HoldsAll now l (save_chunk now h body s) all.1) [
          | inr bad ↦ inr bad
          | inl rest ↦ inl (found, rest)
        ]
      ]

pub HoldsAll-map :
    (f g : Str → Option Bytes) (l : List (Str × Bytes))
    → ((h : Str) (b : Bytes) → f h ≡ some b → g h ≡ some b)
    → HoldsAll f l
    → HoldsAll g l
HoldsAll-map f g [] through all = tt
HoldsAll-map f g ((h, b) ∷ l) through all = (through h b all.0, HoldsAll-map f g l through all.1)
