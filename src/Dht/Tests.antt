-- ===== src/Dht/Tests.antt =====
-- Distances, closest peers and holders on ids of one digit.
use distri_store.Prelude.{
  ℕ, min, map, ◌&&◌, ◌+◌, ◌≤◌, ◌≡◌, ◌↔◌, refl, Option, none, some, List, [], ◌∷◌, ◌++◌, Str, codes,
  str_eq, length, inl, inr, ltb, if◌then◌else◌,
}
use distri_store.Prelude.Dict
use distri_store.Prelude.Dict.{Dict, IsDistinct}
use distri_store.Prelude.Sort.{IsSorted}
use distri_store.Prelude.Distinct.{occurrences}
use distri_store.Dht.{closer, find_closest_peers, xor_distance, str_elem}
use distri_store.Dht.Distance.{xor_distance_metric}
use distri_store.Dht.Closest.{is_hex, AllXor, find_closest_peers_lem}
use distri_store.Dht.Holders.{AllOnce}

-- An id of one decimal digit.
abbrev digit : Str → Option ℕ
digit [] = none
digit (c ∷ l) = if ltb c 10 then some c else none

xor_distance_metric_example :
    (d : ℕ) × (e : ℕ) × (f : ℕ) × (xor_distance digit (5 ∷ []) (3 ∷ []) ≡ some d)
    × (xor_distance digit (3 ∷ []) (5 ∷ []) ≡ some d)
    × (xor_distance digit (3 ∷ []) (9 ∷ []) ≡ some e)
    × (xor_distance digit (5 ∷ []) (9 ∷ []) ≡ some f)
    × ((d ≡ 0) ↔ (◌≡◌ {A = ℕ} 5 3))
    × (f ≤ d + e)
xor_distance_metric_example = xor_distance_metric digit (5 ∷ []) (3 ∷ []) (9 ∷ []) refl refl refl

abbrev ids : List Str
ids = (5 ∷ []) ∷ (30 ∷ []) ∷ (3 ∷ []) ∷ (9 ∷ []) ∷ []

find_closest_peers_lem_example :
    let closest = find_closest_peers digit (1 ∷ []) ids 2 in
    (left_out : List (Str × ℕ)) × IsSorted closer (closest ++ left_out)
    × AllXor digit (1 ∷ []) (closest ++ left_out)
    × ((q : Str)
        → occurrences q (map (λ e. e.0) (closest ++ left_out))
          ≡ (if is_hex digit (1 ∷ []) && is_hex digit q then occurrences q ids else 0))
    × (length closest ≡ min 2 (length (closest ++ left_out)))
find_closest_peers_lem_example = find_closest_peers_lem digit (1 ∷ []) ids 2

abbrev table : Dict (List Str)
table = (codes "c", (5 ∷ []) ∷ (3 ∷ []) ∷ []) ∷ (codes "d", (9 ∷ []) ∷ []) ∷ []

table-IsDistinct : IsDistinct table
unfolding Dict.get str_eq
table-IsDistinct = (refl, (refl, tt))

table-AllOnce : AllOnce (3 ∷ []) table
unfolding str_elem str_eq
table-AllOnce = ((inl refl, (inr refl, tt)), ((inl refl, tt), tt))
