-- ===== src/Prelude/Distinct.antt =====
-- Lists of texts: how often one occurs, and lengths compared by occurrences.
use Prim.Native.Nat.{ℕ, zero, suc, ◌+◌, ◌≤◌}
use mathlib.Core.Path.{◌≡◌, refl}
use mathlib.Core.Bool.{Bool}
use mathlib.Core.Option.{none}
use mathlib.Core.List.{List, [], ◌∷◌, map}
use native.Mathlib.Omega.{arith}
use distri_store.Prelude.Tests.{if◌then◌else◌}
use distri_store.Prelude.Lists.{length, take}
use distri_store.Prelude.Text.{Str, str_eq, str_eq_iff, str_eq_refl}
use distri_store.Prelude.Sort.{insert_by, sort_by}
use distri_store.Prelude.Dict
use distri_store.Prelude.Dict.{Dict, IsDistinct}

unfoldable pub occurrences : Str → List Str → ℕ
occurrences q [] = 0
occurrences q (i ∷ l) = (if str_eq i q then 1 else 0) + occurrences q l

cut : Str → List Str → List Str
cut q [] = []
cut q (i ∷ l) = let rest = cut q l in if str_eq i q then l else i ∷ rest

length-cut : (q : Str) (l : List Str) → 1 ≤ occurrences q l → length (cut q l) + 1 ≡ length l
unfolding occurrences cut
length-cut q [] h = absurd (omega arith)
length-cut q (i ∷ l) h = ground (arith, length-cut q l)

occurrences-cut :
    (q r : Str) (l : List Str)
    → 1 ≤ occurrences q l
    → occurrences r (cut q l) + (if str_eq q r then 1 else 0) ≡ occurrences r l
unfolding occurrences cut
occurrences-cut q r [] h = absurd (omega arith)
occurrences-cut q r (i ∷ l) h =
    ground (arith, str_eq_iff i q, str_eq_iff i r, str_eq_iff q r, occurrences-cut q r l)

-- A list whose entries occur at least as often in another is no longer than it.
pub length_le_of_occurrences :
    (l m : List Str) → ((q : Str) → occurrences q l ≤ occurrences q m) → length l ≤ length m
unfolding occurrences
length_le_of_occurrences [] m h = omega arith
length_le_of_occurrences (i ∷ l) m h =
    let here : 1 ≤ occurrences i m = ground (arith, h i, str_eq_refl i) in
    let fewer =
      length_le_of_occurrences l (cut i m) (λ q. ground (arith, h q, occurrences-cut i q m here)) in
    omega (arith, fewer, length-cut i m here)

pub occurrences-take : (q : Str) (n : ℕ) (l : List Str) → occurrences q (take n l) ≤ occurrences q l
unfolding occurrences
occurrences-take q zero l = omega arith
occurrences-take q (suc n) [] = omega arith
occurrences-take q (suc n) (i ∷ l) = omega (arith, occurrences-take q n l)

module _ {ℓ} {A : Type ℓ} (f : A → Str) (le : A → A → Bool) where
  occurrences-insert_by :
      (q : Str) (x : A) (l : List A)
      → occurrences q (map f (insert_by le x l)) ≡ occurrences q (map f (x ∷ l))
  unfolding occurrences insert_by
  occurrences-insert_by q x [] = refl
  occurrences-insert_by q x (y ∷ l) = ground (arith, occurrences-insert_by q x l)

  pub occurrences-sort_by :
      (q : Str) (l : List A) → occurrences q (map f (sort_by le l)) ≡ occurrences q (map f l)
  unfolding occurrences sort_by
  occurrences-sort_by q [] = refl
  occurrences-sort_by q (x ∷ l) =
      omega (arith, occurrences-insert_by q x (sort_by le l), occurrences-sort_by q l)

module _ {ℓ} {V : Type ℓ} where
  occurrences-absent :
      (q : Str) (d : Dict V) → Dict.get d q ≡ none → occurrences q (Dict.keys d) ≡ 0
  unfolding occurrences Dict.get
  occurrences-absent q [] h = refl
  occurrences-absent q ((k, v) ∷ d) h = ground (arith, occurrences-absent q d)

  pub occurrences-keys : (q : Str) (d : Dict V) → IsDistinct d → occurrences q (Dict.keys d) ≤ 1
  unfolding occurrences
  occurrences-keys q [] h = omega arith
  occurrences-keys q ((k, v) ∷ d) h =
      ground (arith, str_eq_iff k q, occurrences-absent k d h.0, occurrences-keys q d h.1)

  pub occurrences-keep_if :
      (q : Str) (test : V → Bool) (d : Dict V)
      → occurrences q (Dict.keys (Dict.keep_if test d)) ≤ occurrences q (Dict.keys d)
  unfolding occurrences Dict.keep_if
  occurrences-keep_if q test [] = omega arith
  occurrences-keep_if q test ((k, v) ∷ d) = ground (arith, occurrences-keep_if q test d)
