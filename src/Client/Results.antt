-- ===== src/Client/Results.antt =====
-- The list of results while the tasks finish: which entries it already has.
use mathlib.Core.Path.{subst}
use distri_store.Prelude.{
  ℕ, zero, suc, ◌<◌, ◌≤◌, ◌≢◌, ◌≡◌, refl, sym, ◌∙◌, false, inl, inr, Option, none, some, List, [],
  ◌∷◌, map, Str, Bytes, length, get_elem?, set, replicate, ltb, length-set, length-map,
  length-replicate, get_elem?-set_self, get_elem?-set_ne, Bool-cases, arith, ◌==◌,
}
use distri_store.Prelude.Count.{elem}

-- Lists with equal entries at every index are equal.
pub get_elem?_ext {ℓ} :
    {A : Type ℓ} (xs ys : List A) → ((i : ℕ) → get_elem? xs i ≡ get_elem? ys i) → xs ≡ ys
get_elem?_ext [] [] h = refl
get_elem?_ext [] (y ∷ ys) h = absurd (cc (h 0))
get_elem?_ext (x ∷ xs) [] h = absurd (cc (h 0))
get_elem?_ext (x ∷ xs) (y ∷ ys) h =
    let rest = get_elem?_ext xs ys (λ i. h (suc i)) in let here : some x ≡ some y = h 0 in cc

get_elem?_outside {ℓ} : {A : Type ℓ} (xs : List A) (i : ℕ) → length xs ≤ i → get_elem? xs i ≡ none
get_elem?_outside [] i h = refl
get_elem?_outside (x ∷ xs) zero h = absurd (omega (arith, h))
get_elem?_outside (x ∷ xs) (suc i) h = get_elem?_outside xs i (omega (arith, h))

pub outside_of_none {ℓ} : {A : Type ℓ} (xs : List A) (i : ℕ) → get_elem? xs i ≡ none → length xs ≤ i
outside_of_none [] i h = omega arith
outside_of_none (x ∷ xs) zero h = absurd (cc)
outside_of_none (x ∷ xs) (suc i) h = omega (arith, outside_of_none xs i h)

pub inside_of_some {ℓ} :
    {A : Type ℓ} (xs : List A) (i : ℕ) (x : A) → get_elem? xs i ≡ some x → i < length xs
inside_of_some [] i x h = absurd (cc)
inside_of_some (y ∷ xs) zero x h = omega arith
inside_of_some (y ∷ xs) (suc i) x h = omega (arith, inside_of_some xs i x h)

get_elem?-map {ℓ κ} :
    {A : Type ℓ} {B : Type κ} (f : A → B) (xs : List A) (i : ℕ) (x : A)
    → get_elem? xs i ≡ some x
    → get_elem? (map f xs) i ≡ some (f x)
get_elem?-map f [] i x h = absurd (cc)
get_elem?-map f (y ∷ xs) zero x h = let same : y ≡ x = cc in rw same refl
get_elem?-map f (y ∷ xs) (suc i) x h = get_elem?-map f xs i x h

-- The results agree with the list in the end, but for the tasks that are still to finish.
abbrev pub Agrees : List ℕ → List Bytes → List (Option Bytes) → Type 0
Agrees order ds results =
    (length results ≡ length ds)
    × ((i : ℕ)
        → elem i order ≡ false
        → get_elem? results i ≡ get_elem? (map (λ (d : Bytes). some d) ds) i)

pub store-Agrees :
    (j : ℕ) (d : Bytes) (ds : List Bytes) (order : List ℕ) (results : List (Option Bytes))
    → get_elem? ds j ≡ some d
    → Agrees (j ∷ order) ds results
    → Agrees order ds (set results j (some d))
unfolding elem
store-Agrees j d ds order results at_j (size, agree) =
    let inside : j < length results = omega (arith, size, inside_of_some ds j d at_j) in
    (
      length-set results j (some d) ∙ size,
      λ i e. elim (Bool-cases (j == i)) [
        | inl now ↦
            let same : j ≡ i = ground (arith, now) in
            subst
              (λ i.
                get_elem? (set results j (some d)) i ≡ get_elem? (map (λ (d : Bytes). some d) ds) i)
              same
              (get_elem?-set_self results j (some d) inside
                ∙ sym (get_elem?-map (λ (d : Bytes). some d) ds j d at_j))
        | inr other ↦
            let distinct : j ≢ i = λ same. ground (arith, other, same) in
            get_elem?-set_ne results (some d) distinct ∙ agree i (ground (arith, e, other))
      ],
    )

pub skip-Agrees :
    (j : ℕ) (ds : List Bytes) (order : List ℕ) (results : List (Option Bytes))
    → length ds ≤ j
    → Agrees (j ∷ order) ds results
    → Agrees order ds results
unfolding elem
skip-Agrees j ds order results outside (size, agree) = (
  size,
  λ i e. elim (Bool-cases (j == i)) [
    | inl now ↦
        let same : j ≡ i = ground (arith, now) in
        get_elem?_outside results i (omega (arith, size, outside, same))
        ∙ sym (
            get_elem?_outside (map (λ (d : Bytes). some d) ds) i
              (omega (arith, outside, same, length-map ds (λ (d : Bytes). some d))))
    | inr other ↦ agree i (ground (arith, e, other))
  ],
)

pub blank-Agrees :
    (hs : List Str) (ds : List Bytes) (order : List ℕ)
    → ((i : ℕ) → elem i order ≡ ltb i (length hs))
    → length ds ≡ length hs
    → Agrees order ds (replicate (length hs) none)
blank-Agrees hs ds order each size =
    let blank : List (Option Bytes) = replicate (length hs) none in
    let blank_size : length blank ≡ length hs = length-replicate (length hs) none in
    (
      blank_size ∙ sym size,
      λ i e.
          let outside : length hs ≤ i = ground (arith, e, each i) in
          get_elem?_outside blank i (omega (arith, blank_size, outside))
          ∙ sym (
              get_elem?_outside (map (λ (d : Bytes). some d) ds) i
                (omega (arith, size, outside, length-map ds (λ (d : Bytes). some d)))),
    )
