-- ===== src/Prelude/Count.antt =====
-- Lists of indices: membership, `list.remove`, `range`, and how often an index occurs.
use Prim.Native.Nat.{ℕ, zero, suc, ◌+◌, ◌≤◌, ◌<◌}
use mathlib.Core.Path.{◌≡◌, refl}
use mathlib.Core.Bool.{Bool, true, false, ◌||◌}
use mathlib.Core.List.{List, [], ◌∷◌, ◌++◌}
use native.Mathlib.Omega.{arith}
use mathlib.Core.Logic.{inl, inr}
use distri_store.Prelude.Tests.{ltb, ◌==◌, Bool-cases, if◌then◌else◌}
use distri_store.Prelude.Lists.{length}

-- `i in l`
unfoldable pub elem : ℕ → List ℕ → Bool
elem i [] = false
elem i (j ∷ l) = j == i || elem i l

-- `l.remove(i)`: the first occurrence goes.
unfoldable pub remove_first : ℕ → List ℕ → List ℕ
remove_first i [] = []
remove_first i (j ∷ l) = if j == i then l else j ∷ remove_first i l

-- `list(range(n))` from `i` on.
unfoldable pub range_from : ℕ → ℕ → List ℕ
range_from i zero = []
range_from i (suc n) = i ∷ range_from (suc i) n

unfoldable pub count : ℕ → List ℕ → ℕ
count i [] = 0
count i (j ∷ l) = (if j == i then 1 else 0) + count i l

pub count-append : (i : ℕ) (l m : List ℕ) → count i (l ++ m) ≡ count i l + count i m
unfolding count
count-append i [] m = omega arith
count-append i (j ∷ l) m = omega (arith, count-append i l m)

pub elem-count : (i : ℕ) (l : List ℕ) → elem i l ≡ ltb 0 (count i l)
unfolding elem count
elem-count i [] = refl
elem-count i (j ∷ l) = ground (arith, elem-count i l)

pub count-remove_first :
    (i j : ℕ) (l : List ℕ)
    → elem i l ≡ true
    → count j (remove_first i l) + (if i == j then 1 else 0) ≡ count j l
unfolding elem count remove_first
count-remove_first i j [] h = ground arith
count-remove_first i j (k ∷ l) h = ground (arith, count-remove_first i j l)

pub length-remove_first :
    (i : ℕ) (l : List ℕ) → elem i l ≡ true → length (remove_first i l) + 1 ≡ length l
unfolding elem remove_first
length-remove_first i [] h = ground arith
length-remove_first i (k ∷ l) h = ground (arith, length-remove_first i l)

pub count-range_from :
    (j i n : ℕ) → count j (range_from i n) ≡ (if ltb j i then 0 else if ltb j (i + n) then 1 else 0)
unfolding count range_from
count-range_from j i zero = ground arith
count-range_from j i (suc n) = ground (arith, count-range_from j (suc i) n)

pub length-range_from : (i n : ℕ) → length (range_from i n) ≡ n
unfolding range_from
length-range_from i zero = refl
length-range_from i (suc n) = omega (arith, length-range_from (suc i) n)

nil_of_count : (l : List ℕ) → ((i : ℕ) → count i l ≡ 0) → length l ≡ 0
unfolding count
nil_of_count [] h = refl
nil_of_count (j ∷ l) h = ground (arith, h j)

-- Pigeonhole: indices below `k` without repetitions are at most `k`.
pub length-le_of_count :
    (k : ℕ) (l : List ℕ)
    → ((i : ℕ) → count i l ≤ 1)
    → ((i : ℕ) → k ≤ i → count i l ≡ 0)
    → length l ≤ k
length-le_of_count zero l once none = omega (arith, nil_of_count l (λ i. none i (omega arith)))
length-le_of_count (suc k) l once none = elim (Bool-cases (elem k l)) [
  | inl there ↦
      let shorter =
        length-le_of_count k (remove_first k l)
          (λ i. ground (arith, once i, count-remove_first k i l))
          (λ i le. ground (arith, once i, none i, count-remove_first k i l)) in
      omega (arith, shorter, length-remove_first k l there)
  | inr gone ↦
      let same = length-le_of_count k l once (λ i le. ground (arith, none i, elem-count k l)) in
      omega (arith, same)
]

-- A list with every index below `k` has at least `k` entries.
pub le-length_of_elem : (k : ℕ) (l : List ℕ) → ((i : ℕ) → i < k → elem i l ≡ true) → k ≤ length l
le-length_of_elem zero l all = omega arith
le-length_of_elem (suc k) l all =
    let there = all k (omega arith) in
    let fewer = le-length_of_elem k (remove_first k l) (λ i lt. ground (
      arith,
      all i (omega arith),
      elem-count i l,
      elem-count i (remove_first k l),
      count-remove_first k i l,
    )) in
    omega (arith, fewer, length-remove_first k l there)
