-- ===== src/Dht.antt =====
-- backend/dht: XOR distances between ids, the table of chunk holders (routing.py) and the lookup
-- (lookup.py). `int16` is Python's `int(id, 16)` on the ids in use, which are not negative; `none` is its ValueError.
pub mod Distance
pub mod Closest
pub mod Holders
mod Tests
use distri_store.Prelude.{
  ℕ, zero, suc, ◌+◌, ◌*◌, ◌/◌, ◌%◌, Bool, true, false, ◌||◌, Option, none, some, List, [], ◌∷◌, map,
  Str, str_eq, length, take, leb, ◌==◌, if◌then◌else◌,
}
use distri_store.Prelude.Dict
use distri_store.Prelude.Dict.{Dict}
use distri_store.Prelude.Sort.{sort_by}
use distri_store.Node.{NodeState, PeerInfo, get_alive_peers}

-- `a ^ b`, bit by bit. The first argument bounds the number of bits.
unfoldable pub xor_bits : ℕ → ℕ → ℕ → ℕ
xor_bits zero a b = 0
xor_bits (suc fuel) a b = (if a % 2 == b % 2 then 0 else 1) + 2 * xor_bits fuel (a / 2) (b / 2)

-- A number has fewer bits than its value.
unfoldable pub xor : ℕ → ℕ → ℕ
unfolding xor_bits
xor a b = xor_bits (a + b) a b

-- The entries of the sort are an id and its distance.
abbrev pub closer : Str × ℕ → Str × ℕ → Bool
closer a b = leb a.1 b.1

-- `peer_id in peers`
unfoldable pub str_elem : Str → List Str → Bool
str_elem i [] = false
str_elem i (j ∷ l) = str_eq j i || str_elem i l

-- `peers.remove(peer_id)`: the first occurrence goes.
unfoldable pub str_remove : Str → List Str → List Str
str_remove i [] = []
str_remove i (j ∷ l) = let rest = str_remove i l in if str_eq j i then l else j ∷ rest

unfoldable pub assign_chunk : Str → List Str → Dict (List Str) → Dict (List Str)
assign_chunk chunk_hash peer_ids table = Dict.put table chunk_hash peer_ids

unfoldable pub get_holders : Str → Dict (List Str) → List Str
get_holders chunk_hash table = elim (Dict.get table chunk_hash) [ none ↦ [] | some l ↦ l ]

-- The table without the peer, and the chunks that lost it.
unfoldable pub remove_peer_from_all : Str → Dict (List Str) → Dict (List Str) × List Str
unfolding str_elem str_remove
remove_peer_from_all peer_id [] = ([], [])
remove_peer_from_all peer_id ((chunk_hash, peers) ∷ table) =
    let (rest, affected) = remove_peer_from_all peer_id table in
    if str_elem peer_id peers
    then ((chunk_hash, str_remove peer_id peers) ∷ rest, chunk_hash ∷ affected)
    else ((chunk_hash, peers) ∷ rest, affected)

unfoldable pub chunk_count : Dict (List Str) → ℕ
chunk_count table = length table

module _ (int16 : Str → Option ℕ) where
  unfoldable pub xor_distance : Str → Str → Option ℕ
  unfolding xor
  xor_distance id_a id_b = elim (int16 id_a) [
    | none ↦ none
    | some a ↦ elim (int16 id_b) [ none ↦ none | some b ↦ some (xor a b) ]
  ]

  -- The loop, which leaves out the ids that are not hexadecimal.
  unfoldable pub distances : Str → List Str → List (Str × ℕ)
  unfolding xor_distance
  distances target_hash [] = []
  distances target_hash (pid ∷ peer_ids) =
      let rest = distances target_hash peer_ids in
      elim (xor_distance target_hash pid) [ none ↦ rest | some dist ↦ (pid, dist) ∷ rest ]

  unfoldable pub find_closest_peers : Str → List Str → ℕ → List (Str × ℕ)
  unfolding distances
  find_closest_peers target_hash peer_ids k =
      take k (sort_by closer (distances target_hash peer_ids))

  -- `list(peers.keys())` of the alive peers, and the ids of the closest.
  unfoldable pub find_best_storage_peers : ℕ → NodeState → Str → ℕ → List Str
  unfolding find_closest_peers
  find_best_storage_peers now s chunk_hash k =
      map (λ e. e.0) (find_closest_peers chunk_hash (Dict.keys (get_alive_peers now 15 s)) k)

  unfoldable pub find_chunk_holders : ℕ → NodeState → Dict (List Str) → Str → List Str
  unfolding get_holders find_best_storage_peers
  find_chunk_holders now s table chunk_hash = elim (get_holders chunk_hash table) [
    | ◌∷◌ pid holders ↦ pid ∷ holders
    | [] ↦ find_best_storage_peers now s chunk_hash 3
  ]
