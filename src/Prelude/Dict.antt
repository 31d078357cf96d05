-- ===== src/Prelude/Dict.antt =====
-- Python's `dict` with text keys: an association list in insertion order. Writing a key that is
-- there replaces its value in place; a new key goes to the end.
use mathlib.Core.Path.{◌≡◌, refl, subst, ◌∙◌}
use mathlib.Core.Bool.{Bool}
use mathlib.Core.Option.{Option, none, some, some-injective}
use mathlib.Core.Logic.{inl, inr}
use mathlib.Core.List.{List, [], ◌∷◌, map}
use native.Mathlib.Omega.{arith}
use distri_store.Prelude.Tests.{Bool-cases, if◌then◌else◌}
use distri_store.Prelude.Text.{Str, str_eq, str_eq_iff, str_eq_refl}

abbrev pub Dict {ℓ} : Type ℓ → Type ℓ
Dict V = List (Str × V)

module _ {ℓ} {V : Type ℓ} where
  -- `d.get(k)`
  unfoldable pub get : Dict V → Str → Option V
  get [] k = none
  get ((j, v) ∷ d) k = if str_eq j k then some v else get d k

  -- `d[k] = v`
  unfoldable pub put : Dict V → Str → V → Dict V
  put [] k v = (k, v) ∷ []
  put ((j, w) ∷ d) k v = let rest = put d k v in if str_eq j k then (j, v) ∷ d else (j, w) ∷ rest

  -- `d.pop(k, None)` and `del d[k]`
  unfoldable pub remove : Dict V → Str → Dict V
  remove [] k = []
  remove ((j, w) ∷ d) k = let rest = remove d k in if str_eq j k then rest else (j, w) ∷ rest

  -- `list(d.keys())`
  abbrev pub keys : Dict V → List Str
  keys = map (λ e. e.0)

  pub get-put :
      (d : Dict V) (k : Str) (v : V) (j : Str)
      → get (put d k v) j ≡ (if str_eq k j then some v else get d j)
  unfolding get put
  get-put [] k v j = refl
  get-put ((i, w) ∷ d) k v j =
      ground (arith, str_eq_iff i k, str_eq_iff i j, str_eq_iff k j, get-put d k v j)

  pub get-remove :
      (d : Dict V) (k j : Str) → get (remove d k) j ≡ (if str_eq k j then none else get d j)
  unfolding get remove
  get-remove [] k j = ground arith
  get-remove ((i, w) ∷ d) k j =
      ground (arith, str_eq_iff i k, str_eq_iff i j, str_eq_iff k j, get-remove d k j)

  pub get-put_self : (d : Dict V) (k : Str) (v : V) → get (put d k v) k ≡ some v
  get-put_self d k v = simp (get-put, str_eq_refl)

  pub get-remove_self : (d : Dict V) (k : Str) → get (remove d k) k ≡ none
  get-remove_self d k = simp (get-remove, str_eq_refl)

-- Every value of the dictionary has the property.
abbrev pub AllValues {ℓ κ} : {V : Type ℓ} → (V → Type κ) → Dict V → Type (ℓ ⊔ κ)
AllValues {V} P d = (k : Str) (v : V) → get d k ≡ some v → P v

module _ {ℓ κ} {V : Type ℓ} (P : V → Type κ) where
  pub put-AllValues : (d : Dict V) (k : Str) (v : V) → P v → AllValues P d → AllValues P (put d k v)
  put-AllValues d k v h all j w e = elim (Bool-cases (str_eq k j)) [
    | inl same ↦ subst P (some-injective _ _ (rw (get-put, same) at e)) h
    | inr other ↦ all j w (rw (get-put, other) at e)
  ]

  pub remove-AllValues : (d : Dict V) (k : Str) → AllValues P d → AllValues P (remove d k)
  remove-AllValues d k all j w e = elim (Bool-cases (str_eq k j)) [
    | inl same ↦ absurd (cc (rw (get-remove, same) at e))
    | inr other ↦ all j w (rw (get-remove, other) at e)
  ]

-- No key stands twice.
abbrev pub IsDistinct {ℓ} : {V : Type ℓ} → Dict V → Type ℓ
IsDistinct [] = Unit
IsDistinct ((k, v) ∷ d) = (get d k ≡ none) × IsDistinct d

module _ {ℓ} {V : Type ℓ} where
  pub put-IsDistinct : (d : Dict V) (k : Str) (v : V) → IsDistinct d → IsDistinct (put d k v)
  unfolding put get
  put-IsDistinct [] k v h = (refl, tt)
  put-IsDistinct ((j, w) ∷ d) k v h = elim (Bool-cases (str_eq j k)) [
    | inl same ↦ rw same h
    | inr other ↦ rw other (
      get-put d k v j ∙ ground (arith, str_eq_iff k j, str_eq_iff j k, h.0),
      put-IsDistinct d k v h.1,
    )
  ]

  pub remove-IsDistinct : (d : Dict V) (k : Str) → IsDistinct d → IsDistinct (remove d k)
  unfolding remove
  remove-IsDistinct [] k h = tt
  remove-IsDistinct ((j, w) ∷ d) k h = elim (Bool-cases (str_eq j k)) [
    | inl same ↦ rw same (remove-IsDistinct d k h.1)
    | inr other ↦ rw other (get-remove d k j ∙ ground (arith, h.0), remove-IsDistinct d k h.1)
  ]

  -- A dictionary without the entries that fail a test.
  unfoldable pub keep_if : (V → Bool) → Dict V → Dict V
  keep_if test [] = []
  keep_if test ((k, v) ∷ d) = let rest = keep_if test d in if test v then (k, v) ∷ rest else rest

  abbrev pub only_if : (V → Bool) → Option V → Option V
  only_if test none = none
  only_if test (some v) = if test v then some v else none

  pub get-keep_if :
      (test : V → Bool) (d : Dict V) (k : Str)
      → IsDistinct d
      → get (keep_if test d) k ≡ only_if test (get d k)
  unfolding get keep_if
  get-keep_if test [] k h = refl
  get-keep_if test ((j, v) ∷ d) k h = elim (Bool-cases (str_eq j k)) [
    | inr other ↦ elim (Bool-cases (test v)) [
      | inl good ↦ rw (good, other) (get-keep_if test d k h.1)
      | inr bad ↦ rw (bad, other) (get-keep_if test d k h.1)
    ]
    | inl same ↦ elim (Bool-cases (test v)) [
      | inl good ↦ rw (good, same) (rw good refl)
      | inr bad ↦
          let absent : get d k ≡ none = subst (λ i. get d i ≡ none) ((str_eq_iff j k).0 same) h.0 in
          rw (bad, same) (get-keep_if test d k h.1 ∙ rw (absent, bad) refl)
    ]
  ]

pub ruleset dict_laws = (get-put, get-remove, get-put_self, get-remove_self)
