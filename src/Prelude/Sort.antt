-- ===== src/Prelude/Sort.antt =====
-- Python's `sorted(l, key=…)`: a stable sort, over a Boolean order on the entries.
use mathlib.Core.Path.{◌≡◌, refl}
use mathlib.Core.Logic.{inl, inr}
use mathlib.Core.Bool.{Bool, true, false}
use mathlib.Core.List.{List, [], ◌∷◌, Perm}
use mathlib.Core.List.Perm
use native.Mathlib.Omega.{arith}
use distri_store.Prelude.Tests.{if◌then◌else◌, Bool-cases}
use distri_store.Prelude.Lists.{length}

module _ {ℓ} {A : Type ℓ} where
  -- An entry goes in front of those that are not less, so that equal ones keep their order.
  unfoldable pub insert_by : (A → A → Bool) → A → List A → List A
  insert_by le x [] = x ∷ []
  insert_by le x (y ∷ l) = if le x y then x ∷ y ∷ l else y ∷ insert_by le x l

  unfoldable pub sort_by : (A → A → Bool) → List A → List A
  unfolding insert_by
  sort_by le [] = []
  sort_by le (x ∷ l) = insert_by le x (sort_by le l)

  -- `x` is at most every entry.
  abbrev pub AtMost : (A → A → Bool) → A → List A → Type 0
  AtMost le x [] = Unit
  AtMost le x (y ∷ l) = (le x y ≡ true) × AtMost le x l

  -- Every entry is at most all that follow it.
  abbrev pub IsSorted : (A → A → Bool) → List A → Type 0
  IsSorted le [] = Unit
  IsSorted le (x ∷ l) = AtMost le x l × IsSorted le l

  module _ (le : A → A → Bool) where
    insert_by-perm : (x : A) (l : List A) → Perm (insert_by le x l) (x ∷ l)
    unfolding insert_by
    insert_by-perm x [] = Perm.refl _
    insert_by-perm x (y ∷ l) = elim (Bool-cases (le x y)) [
      | inl e ↦ rw e (Perm.refl _)
      | inr e ↦ rw e (Perm.trans (Perm.cons y (insert_by-perm x l)) (Perm.swap x y l))
    ]

    -- Sorting rearranges.
    pub sort_by-perm : (l : List A) → Perm (sort_by le l) l
    unfolding sort_by
    sort_by-perm [] = Perm.refl _
    sort_by-perm (x ∷ l) =
        Perm.trans (insert_by-perm x (sort_by le l)) (Perm.cons x (sort_by-perm l))

    length-insert_by : (x : A) (l : List A) → length (insert_by le x l) ≡ length (x ∷ l)
    unfolding insert_by
    length-insert_by x [] = refl
    length-insert_by x (y ∷ l) = ground (arith, length-insert_by x l)

    pub length-sort_by : (l : List A) → length (sort_by le l) ≡ length l
    unfolding sort_by
    length-sort_by [] = refl
    length-sort_by (x ∷ l) = omega (arith, length-insert_by x (sort_by le l), length-sort_by l)

    -- What is sorted stays as it is.
    pub sort_by_sorted : (l : List A) → IsSorted le l → sort_by le l ≡ l
    unfolding sort_by insert_by
    sort_by_sorted [] h = refl
    sort_by_sorted (x ∷ []) h = refl
    sort_by_sorted (x ∷ y ∷ l) h = rw (sort_by_sorted (y ∷ l) h.1) (rw h.0.0)

    module _ (total : (x y : A) → le x y ≡ false → le y x ≡ true)
        (trans : (x y z : A) → le x y ≡ true → le y z ≡ true → le x z ≡ true) where
      AtMost-trans : (x y : A) (l : List A) → le x y ≡ true → AtMost le y l → AtMost le x l
      AtMost-trans x y [] h k = tt
      AtMost-trans x y (z ∷ l) h k = (trans x y z h k.0, AtMost-trans x y l h k.1)

      AtMost-insert_by :
          (x y : A) (l : List A) → le x y ≡ true → AtMost le x l → AtMost le x (insert_by le y l)
      unfolding insert_by
      AtMost-insert_by x y [] h k = (h, tt)
      AtMost-insert_by x y (z ∷ l) h k = elim (Bool-cases (le y z)) [
        | inl e ↦ rw e (h, k)
        | inr e ↦ rw e (k.0, AtMost-insert_by x y l h k.1)
      ]

      insert_by-IsSorted : (x : A) (l : List A) → IsSorted le l → IsSorted le (insert_by le x l)
      unfolding insert_by
      insert_by-IsSorted x [] h = (tt, tt)
      insert_by-IsSorted x (y ∷ l) h = elim (Bool-cases (le x y)) [
        | inl e ↦ rw e ((e, AtMost-trans x y l e h.0), h)
        | inr e ↦ rw e (AtMost-insert_by y x l (total x y e) h.0, insert_by-IsSorted x l h.1)
      ]

      pub sort_by-IsSorted : (l : List A) → IsSorted le (sort_by le l)
      unfolding sort_by
      sort_by-IsSorted [] = tt
      sort_by-IsSorted (x ∷ l) = insert_by-IsSorted x (sort_by le l) (sort_by-IsSorted l)
