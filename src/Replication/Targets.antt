-- ===== src/Replication/Targets.antt =====
-- Which peers a chunk is sent to.
use distri_store.Prelude.{
  ℕ, zero, suc, ◌+◌, ◌*◌, ◌≤◌, ◌≡◌, ◌↔◌, refl, true, Option, inl, inr, List, [], ◌∷◌, ◌++◌, map,
  min, Str, str_eq, str_eq_iff, length, length-take, take, Bool-cases, arith, if◌then◌else◌,
}
use distri_store.Prelude.Dict
use distri_store.Prelude.Dict.{Dict, IsDistinct}
use distri_store.Prelude.Sort.{sort_by}
use distri_store.Prelude.Distinct.{
  occurrences, length_le_of_occurrences, occurrences-take, occurrences-sort_by, occurrences-keys,
  occurrences-keep_if,
}
use distri_store.Manifest.{is_empty}
use distri_store.Node.{PeerInfo, NodeState, is_alive, get_alive_peers}
use distri_store.Dht.{closer, distances, str_elem, find_closest_peers}
use distri_store.Replication.{better, add_missing, score_peers, select_targets}

pub str_elem-occurrences : (q : Str) (l : List Str) → (str_elem q l ≡ true) ↔ (1 ≤ occurrences q l)
unfolding str_elem occurrences
str_elem-occurrences q [] = ground arith
str_elem-occurrences q (i ∷ l) = ground (arith, str_elem-occurrences q l)

pub occurrences-append :
    (q : Str) (l m : List Str) → occurrences q (l ++ m) ≡ occurrences q l + occurrences q m
unfolding occurrences
occurrences-append q [] m = omega arith
occurrences-append q (i ∷ l) m = omega (arith, occurrences-append q l m)

occurrences-single : (q i : Str) → occurrences q (i ∷ []) ≡ (if str_eq i q then 1 else 0)
unfolding occurrences
occurrences-single q i = omega arith

-- An id that is in the list stays as often as it is; another one is added at most once.
occurrences-add_missing :
    (q : Str) (combined pids : List Str)
    → occurrences q (add_missing combined pids)
      ≡ (if str_elem q combined then occurrences q combined else if str_elem q pids then 1 else 0)
unfolding add_missing str_elem
occurrences-add_missing q combined [] = ground (arith, str_elem-occurrences q combined)
occurrences-add_missing q combined (i ∷ pids) = elim (Bool-cases (str_elem i combined)) [
  | inl there ↦
      rw there (ground (arith, there, str_eq_iff i q, occurrences-add_missing q combined pids))
  | inr new ↦ rw new (
      ground (
        arith,
        new,
        str_eq_iff i q,
        occurrences-add_missing q (combined ++ i ∷ []) pids,
        occurrences-append q combined (i ∷ []),
        occurrences-single q i,
        str_elem-occurrences q combined,
        str_elem-occurrences q (combined ++ i ∷ []),
      ))
]

occurrences-distances :
    (int16 : Str → Option ℕ) (q target : Str) (pids : List Str)
    → occurrences q (map (λ e. e.0) (distances int16 target pids)) ≤ occurrences q pids
unfolding occurrences distances
occurrences-distances int16 q target [] = omega arith
occurrences-distances int16 q target (i ∷ pids) =
    ground (arith, occurrences-distances int16 q target pids)

occurrences-map-take :
    {A : Type 0} (f : A → Str) (q : Str) (k : ℕ) (l : List A)
    → occurrences q (map f (take k l)) ≤ occurrences q (map f l)
unfolding occurrences
occurrences-map-take f q zero l = omega arith
occurrences-map-take f q (suc k) [] = omega arith
occurrences-map-take f q (suc k) (x ∷ l) = omega (arith, occurrences-map-take f q k l)

pub occurrences-closest :
    (int16 : Str → Option ℕ) (q target : Str) (pids : List Str) (k : ℕ)
    → occurrences q (map (λ e. e.0) (find_closest_peers int16 target pids k)) ≤ occurrences q pids
unfolding find_closest_peers
occurrences-closest int16 q target pids k =
    let found = distances int16 target pids in
    let fst : Str × ℕ → Str = λ e. e.0 in
    omega (
      arith,
      occurrences-map-take fst q k (sort_by closer found),
      occurrences-sort_by fst closer q found,
      occurrences-distances int16 q target pids,
    )

occurrences-score_peers :
    (score : Dict PeerInfo → PeerInfo → ℕ) (q : Str) (peers : Dict PeerInfo)
    → occurrences q (score_peers score peers) ≡ occurrences q (Dict.keys peers)
unfolding score_peers
occurrences-score_peers score q peers =
    occurrences-sort_by (λ (e : Str × PeerInfo). e.0) (better (score peers)) q peers

length-score_peers :
    (score : Dict PeerInfo → PeerInfo → ℕ) (peers : Dict PeerInfo)
    → length (score_peers score peers) ≡ length (Dict.keys peers)
length-score_peers score peers = omega (
  arith,
  length_le_of_occurrences (score_peers score peers) (Dict.keys peers)
      (λ q. omega (arith, occurrences-score_peers score q peers)),
  length_le_of_occurrences (Dict.keys peers) (score_peers score peers)
      (λ q. omega (arith, occurrences-score_peers score q peers)),
)

-- The merged list of ids: none twice, only ids of peers, and all of the heuristic's.
module _ (keys xor_top heuristic_top : List Str) (once : (q : Str) → occurrences q keys ≤ 1)
    (xor_known : (q : Str) → occurrences q xor_top ≤ occurrences q keys)
    (heuristic_known : (q : Str) → occurrences q heuristic_top ≤ occurrences q keys) where
  abbrev combined : List Str
  combined = add_missing (add_missing [] xor_top) heuristic_top

  occurrences-combined :
      (q : Str)
      → (occurrences q combined ≤ occurrences q keys)
        × (occurrences q heuristic_top ≤ occurrences q combined)
  unfolding str_elem occurrences
  occurrences-combined q = ground (
    arith,
    once q,
    xor_known q,
    heuristic_known q,
    occurrences-add_missing q [] xor_top,
    occurrences-add_missing q (add_missing [] xor_top) heuristic_top,
    str_elem-occurrences q (add_missing [] xor_top),
    str_elem-occurrences q xor_top,
    str_elem-occurrences q heuristic_top,
  )

  length-combined : (length heuristic_top ≤ length combined) × (length combined ≤ length keys)
  length-combined = (
    length_le_of_occurrences heuristic_top combined (λ q. (occurrences-combined q).1),
    length_le_of_occurrences combined keys (λ q. (occurrences-combined q).0),
  )

no_keys : (peers : Dict PeerInfo) → is_empty peers ≡ true → length (Dict.keys peers) ≡ 0
no_keys [] h = refl
no_keys (e ∷ peers) h = ground arith

occurrences-nil : (q : Str) → occurrences q [] ≡ 0
unfolding occurrences
occurrences-nil q = refl

-- For a peer table without double keys: the targets of a chunk are alive peers, none twice, and
-- they are `k`, or all alive peers if there are fewer, however many ids are not hexadecimal.
pub select_targets_lem :
    (score : Dict PeerInfo → PeerInfo → ℕ) (int16 : Str → Option ℕ) (now k : ℕ) (s : NodeState)
    (chunk_hash pid : Str)
    → IsDistinct s.peers
    → let targets = select_targets score int16 now k s chunk_hash in
      let alive = Dict.keys (get_alive_peers now 15 s) in
      (occurrences pid targets ≤ occurrences pid alive)
      × (occurrences pid alive ≤ 1)
      × (length targets ≡ min k (length alive))
unfolding select_targets get_alive_peers
select_targets_lem score int16 now k s chunk_hash pid distinct =
    let peers = get_alive_peers now 15 s in
    let alive = Dict.keys peers in
    let once : (q : Str) → occurrences q alive ≤ 1 = λ q. omega (
      arith,
      occurrences-keep_if q (is_alive now 15) s.peers,
      occurrences-keys q s.peers distinct,
    ) in
    elim (Bool-cases (is_empty peers)) [
      | inl nobody ↦
          let none_alive = no_keys peers nobody in
          rw nobody (omega (arith, occurrences-nil pid), once pid, omega (arith, none_alive))
      | inr some_alive ↦
          let xor_top = map (λ e. e.0) (find_closest_peers int16 chunk_hash alive k) in
          let heuristic_top = take (k * 2) (score_peers score peers) in
          let xor_known = λ (q : Str). occurrences-closest int16 q chunk_hash alive k in
          let heuristic_known : (q : Str) → occurrences q heuristic_top ≤ occurrences q alive = λ q.
            omega (
              arith,
              occurrences-take q (k * 2) (score_peers score peers),
              occurrences-score_peers score q peers,
            ) in
          let merged = add_missing (add_missing [] xor_top) heuristic_top in
          let counts = length-combined alive xor_top heuristic_top once xor_known heuristic_known in
          rw some_alive (
            omega (
              arith,
              occurrences-take pid k merged,
              (occurrences-combined alive xor_top heuristic_top once xor_known heuristic_known
                  pid).0,
            ),
            once pid,
            omega (
              arith,
              length-take k merged,
              counts.0,
              counts.1,
              length-take (k * 2) (score_peers score peers),
              length-score_peers score peers,
            ),
          )
    ]
