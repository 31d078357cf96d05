-- ===== src/Dht/Closest.antt =====
-- Which peers `find_closest_peers` returns.
use mathlib.Core.Path.{subst}
use distri_store.Prelude.{
  ℕ, min, ◌≡◌, refl, sym, ap, ◌∙◌, Bool, true, false, ◌&&◌, Option, none, some, inl, inr, List, [],
  ◌∷◌, map, ◌++◌, Str, str_eq, str_eq_iff, length, length-take, drop, take-append-drop, Bool-cases,
  Option-cases, arith, if◌then◌else◌,
}
use distri_store.Prelude.Sort.{IsSorted, sort_by, insert_by, sort_by-IsSorted, length-sort_by}
use distri_store.Prelude.Distinct.{occurrences, occurrences-sort_by}
use distri_store.Dht.{xor, xor_distance, closer, distances, find_closest_peers}

closer_total : (x y : Str × ℕ) → closer x y ≡ false → closer y x ≡ true
closer_total x y h = ground arith

closer_trans : (x y z : Str × ℕ) → closer x y ≡ true → closer y z ≡ true → closer x z ≡ true
closer_trans x y z h k = ground arith

-- An id that is hexadecimal.
unfoldable pub is_hex : (Str → Option ℕ) → Str → Bool
is_hex int16 id = elim (int16 id) [ none ↦ false | some n ↦ true ]

hex_none : (int16 : Str → Option ℕ) (id : Str) → int16 id ≡ none → is_hex int16 id ≡ false
unfolding is_hex
hex_none int16 id e = rw (is_hex, e) refl

hex_some : (int16 : Str → Option ℕ) (id : Str) (n : ℕ) → int16 id ≡ some n → is_hex int16 id ≡ true
unfolding is_hex
hex_some int16 id n e = rw (is_hex, e) refl

-- Every entry has the XOR of the two numbers as its distance.
abbrev pub AllXor : (Str → Option ℕ) → Str → List (Str × ℕ) → Type 0
AllXor int16 target_hash [] = Unit
AllXor int16 target_hash ((pid, dist) ∷ l) =
    ((a : ℕ) × (b : ℕ) × (int16 target_hash ≡ some a) × (int16 pid ≡ some b) × (dist ≡ xor a b))
    × AllXor int16 target_hash l

module _ (int16 : Str → Option ℕ) (target_hash : Str) where
  insert_by-AllXor :
      (x : Str × ℕ) (l : List (Str × ℕ))
      → AllXor int16 target_hash (x ∷ l)
      → AllXor int16 target_hash (insert_by closer x l)
  unfolding insert_by
  insert_by-AllXor x [] h = h
  insert_by-AllXor x (y ∷ l) h = elim (Bool-cases (closer x y)) [
    | inl before ↦ rw (insert_by, before) h
    | inr after ↦ rw (insert_by, after) (h.1.0, insert_by-AllXor x l (h.0, h.1.1))
  ]

  sort_by-AllXor :
      (l : List (Str × ℕ))
      → AllXor int16 target_hash l
      → AllXor int16 target_hash (sort_by closer l)
  unfolding sort_by
  sort_by-AllXor [] h = tt
  sort_by-AllXor (x ∷ l) h = insert_by-AllXor x (sort_by closer l) (h.0, sort_by-AllXor l h.1)

  distances-AllXor : (pids : List Str) → AllXor int16 target_hash (distances int16 target_hash pids)
  unfolding distances xor_distance
  distances-AllXor [] = tt
  distances-AllXor (i ∷ pids) = elim (Option-cases (int16 target_hash)) [
    | inl bad ↦ rw (distances, xor_distance, bad) (distances-AllXor pids)
    | inr (a, target) ↦ elim (Option-cases (int16 i)) [
      | inl bad ↦ rw (distances, xor_distance, target, bad) (distances-AllXor pids)
      | inr (b, id) ↦
          rw (distances, xor_distance, target, id) ((a, b, target, id, refl), distances-AllXor pids)
    ]
  ]

  -- The entries are those of the hexadecimal ids, each as often as its id is given.
  occurrences-valid :
      (q : Str) (pids : List Str)
      → occurrences q (map (λ e. e.0) (distances int16 target_hash pids))
        ≡ (if is_hex int16 target_hash && is_hex int16 q then occurrences q pids else 0)
  unfolding distances xor_distance occurrences
  occurrences-valid q [] = ground arith
  occurrences-valid q (i ∷ pids) =
      let rest = occurrences-valid q pids in
      let ids : List (Str × ℕ) → ℕ = λ l. occurrences q (map (λ (e : Str × ℕ). e.0) l) in
      let alike : str_eq i q ≡ true → is_hex int16 i ≡ is_hex int16 q =
        λ e. ap (is_hex int16) ((str_eq_iff i q).0 e) in
      elim (Option-cases (int16 target_hash)) [
        | inl bad ↦
            let step : distances int16 target_hash (i ∷ pids) ≡ distances int16 target_hash pids =
              rw (distances, xor_distance, bad) refl in
            let hex = hex_none int16 target_hash bad in ap ids step ∙ (rest ∙ ground (arith, hex))
        | inr (a, target) ↦ elim (Option-cases (int16 i)) [
          | inl bad ↦
              let step : distances int16 target_hash (i ∷ pids) ≡ distances int16 target_hash pids =
                rw (distances, xor_distance, target, bad) refl in
              let hex = hex_none int16 i bad in ap ids step ∙ (rest ∙ ground (arith, hex, alike))
          | inr (b, id) ↦
              let step : distances int16 target_hash (i ∷ pids)
                  ≡ (i, xor a b) ∷ distances int16 target_hash pids =
                rw (distances, xor_distance, target, id) refl in
              let hex = hex_some int16 i b id in
              let hex_target = hex_some int16 target_hash a target in
              ap ids step ∙ ground (arith, rest, hex, hex_target, alike)
        ]
      ]

pub length-find_closest_peers :
    (int16 : Str → Option ℕ) (target_hash : Str) (peer_ids : List Str) (k : ℕ)
    → length (find_closest_peers int16 target_hash peer_ids k)
      ≡ min k (length (distances int16 target_hash peer_ids))
unfolding find_closest_peers
length-find_closest_peers int16 target_hash peer_ids k =
    let all = distances int16 target_hash peer_ids in
    omega (arith, length-take k (sort_by closer all), length-sort_by closer all)

-- Together with the entries that it leaves out, the result has an entry for each given id that is
-- hexadecimal (none, when the target is not), with the XOR of the two numbers as its distance, and is
-- sorted: none that is left out is closer than one that is returned. The result has `k` entries, or
-- all if there are fewer.
pub find_closest_peers_lem :
    (int16 : Str → Option ℕ) (target_hash : Str) (peer_ids : List Str) (k : ℕ)
    → let closest = find_closest_peers int16 target_hash peer_ids k in
      (left_out : List (Str × ℕ)) × IsSorted closer (closest ++ left_out)
      × AllXor int16 target_hash (closest ++ left_out)
      × ((q : Str)
          → occurrences q (map (λ e. e.0) (closest ++ left_out))
            ≡ (if is_hex int16 target_hash && is_hex int16 q then occurrences q peer_ids else 0))
      × (length closest ≡ min k (length (closest ++ left_out)))
unfolding find_closest_peers
find_closest_peers_lem int16 target_hash peer_ids k =
    let all = distances int16 target_hash peer_ids in
    let sorted = sort_by closer all in
    let split = take-append-drop k sorted in
    (
      drop k sorted,
      subst (λ l. IsSorted closer l) (sym split)
          (sort_by-IsSorted closer closer_total closer_trans all),
      subst (λ l. AllXor int16 target_hash l) (sym split)
          (sort_by-AllXor int16 target_hash all (distances-AllXor int16 target_hash peer_ids)),
      λ q.
          ap (λ (l : List (Str × ℕ)). occurrences q (map (λ e. e.0) l)) split
          ∙ (occurrences-sort_by (λ (e : Str × ℕ). e.0) closer q all
              ∙ occurrences-valid int16 target_hash q peer_ids),
      omega (arith, length-take k sorted, ap (length {A = Str × ℕ}) split),
    )
