-- ===== src/Replication/Repair.antt =====
-- What a repair restores.
use distri_store.Prelude.{
  ℕ, ◌+◌, ◌-◌, ◌≤◌, ◌≡◌, refl, Bool, true, false, not, ◌&&◌, Option, some, inl, inr, List, [], ◌∷◌,
  ◌++◌, map, min, Str, Bytes, str_eq, str_eq_iff, str_eq_refl, length, ap, if◌then◌else◌,
  length-append, length-map, ltb, Bool-cases, arith,
}
use distri_store.Prelude.Dict
use distri_store.Prelude.Dict.{Dict, IsDistinct}
use distri_store.Prelude.Distinct.{occurrences, occurrences-keys, occurrences-keep_if}
use distri_store.Local.{load_chunk}
use distri_store.Node.{PeerInfo, is_alive, get_alive_peers}
use distri_store.Dht.{str_elem, get_holders, distances, find_closest_peers}
use distri_store.Dht.Closest.{length-find_closest_peers}
use distri_store.Replication.{Links, World, only, send_to_target, heal_chunk, check_and_heal}
use distri_store.Replication.Targets.{occurrences-closest, occurrences-append, str_elem-occurrences}
use distri_store.Replication.Healing.{str_elem-only, str_elem-append, get_holders-repaired}

-- A test that all entries pass drops none.
only_all :
    (test : Str → Bool) (l : List Str)
    → ((q : Str) → str_elem q l ≡ true → test q ≡ true)
    → only test l ≡ l
unfolding only str_elem
only_all test [] h = refl
only_all test (i ∷ l) h =
    let here : test i ≡ true = h i (rw (str_eq_refl i) refl) in
    rw (here, only_all test l (λ q e. h q (ground (arith, e)))) refl

only-append : (test : Str → Bool) (l m : List Str) → only test (l ++ m) ≡ only test l ++ only test m
unfolding only
only-append test [] m = refl
only-append test (i ∷ l) m = elim (Bool-cases (test i)) [
  | inl e ↦ rw (e, only-append test l m) refl
  | inr e ↦ rw (e, only-append test l m) refl
]

occurrences-only :
    (test : Str → Bool) (q : Str) (l : List Str)
    → occurrences q (only test l) ≡ (if test q then occurrences q l else 0)
unfolding occurrences only
occurrences-only test q [] = ground arith
occurrences-only test q (i ∷ l) =
    let alike : str_eq i q ≡ true → test i ≡ test q = λ e. ap test ((str_eq_iff i q).0 e) in
    ground (arith, alike, occurrences-only test q l)

module _ (w : World) (now : ℕ) where
  abbrev pub alive_peers_of : Dict PeerInfo
  alive_peers_of = get_alive_peers now 15 w.node

  -- The node itself, or an alive peer.
  abbrev pub is_holder_alive : Str → Bool
  is_holder_alive h = str_elem h (w.node.node_id ∷ Dict.keys alive_peers_of)

  -- The alive peers that may take a chunk with these holders, by their valid ids.
  abbrev pub candidates_for : (Str → Option ℕ) → Str → List Str → List (Str × ℕ)
  candidates_for int16 h holders =
      distances int16 h
        (only (λ pid. not (str_elem pid (only is_holder_alive holders))) (Dict.keys alive_peers_of))

module _ (int16 : Str → Option ℕ) (links : Str → Links) (now k : ℕ) (w : World) (h : Str)
    (holders : List Str)
    (sends : (q : Str)
      → str_elem q (Dict.keys (alive_peers_of w now)) ≡ true
      → send_to_target (links h) (alive_peers_of w now) q ≡ true) where
  abbrev peers : Dict PeerInfo
  peers = alive_peers_of w now

  abbrev before : List Str
  before = only (is_holder_alive w now) holders

  abbrev pids : List Str
  pids = only (λ q. not (str_elem q before)) (Dict.keys peers)

  abbrev targets : List Str
  targets = map (λ e. e.0) (find_closest_peers int16 h pids (k - length before))

  targets-known : (q : Str) → str_elem q targets ≡ true → str_elem q (Dict.keys peers) ≡ true
  targets-known q e =
      let there : 1 ≤ occurrences q targets = (str_elem-occurrences q targets).0 e in
      let pid : str_elem q pids ≡ true =
        (str_elem-occurrences q pids).1
          (omega (arith, occurrences-closest int16 q h pids (k - length before))) in
      ground (arith, str_elem-only (λ q. not (str_elem q before)) q (Dict.keys peers))

  chunk_healed :
      (body : Bytes)
      → load_chunk h w.store ≡ some body
      → heal_chunk int16 links now k peers w.store h before ≡ before ++ targets
  unfolding heal_chunk
  chunk_healed body stored =
      let all =
        only_all (send_to_target (links h) peers) targets (λ q e. sends q (targets-known q e)) in
      rw (heal_chunk, stored, all) refl

  all_alive : only (is_holder_alive w now) (before ++ targets) ≡ before ++ targets
  unfolding str_elem
  all_alive = only_all (is_holder_alive w now) (before ++ targets) (λ q e. ground (
    arith,
    str_elem-append q before targets,
    str_elem-only (is_holder_alive w now) q holders,
    targets-known q,
  ))

  enough :
      ltb (length before) k ≡ true
      → min k (length before + length (candidates_for w now int16 h holders))
        ≤ length (before ++ targets)
  enough few =
      let count = length-find_closest_peers int16 h pids (k - length before) in
      let fst : Str × ℕ → Str = λ e. e.0 in
      omega (
        arith,
        length-append before targets,
        length-map (find_closest_peers int16 h pids (k - length before)) fst,
        count,
      )

  once_each :
      IsDistinct w.node.peers
      → ((q : Str) → occurrences q holders ≤ 1)
      → (q : Str) → occurrences q (before ++ targets) ≤ 1
  unfolding get_alive_peers
  once_each distinct once q =
      let test : Str → Bool = λ p. not (str_elem p before) in
      let keys : occurrences q (Dict.keys peers) ≤ 1 = omega (
        arith,
        occurrences-keep_if q (is_alive now 15) w.node.peers,
        occurrences-keys q w.node.peers distinct,
      ) in
      ground (
        arith,
        keys,
        once q,
        occurrences-append q before targets,
        occurrences-only (is_holder_alive w now) q holders,
        occurrences-only test q (Dict.keys peers),
        occurrences-closest int16 q h pids (k - length before),
        str_elem-occurrences q before,
      )

-- For tables of peers and of holders without double keys and a chunk that is stored locally, when no
-- holder of it is listed twice and every alive peer can be sent to: the repair loses no alive holder
-- of the chunk and lists none twice, and afterwards the chunk has `k` holders that are alive, or all
-- that can be had: those it had and every alive peer with a valid id.
pub check_and_heal_lem :
    (int16 : Str → Option ℕ) (links : Str → Links) (now k : ℕ) (w : World) (h pid : Str)
    (holders : List Str) (body : Bytes)
    → IsDistinct w.routing
    → IsDistinct w.node.peers
    → ((q : Str) → occurrences q holders ≤ 1)
    → Dict.get w.routing h ≡ some holders
    → load_chunk h w.store ≡ some body
    → ((q : Str)
        → str_elem q (Dict.keys (alive_peers_of w now)) ≡ true
        → send_to_target (links h) (alive_peers_of w now) q ≡ true)
    → let after = get_holders h (check_and_heal int16 links now k w).routing in
      let alive = is_holder_alive w now in
      ((str_elem pid (only alive holders) && not (str_elem pid after)) ≡ false)
      × (min k (length (only alive holders) + length (candidates_for w now int16 h holders))
          ≤ length (only alive after))
      × ((q : Str) → occurrences q after ≤ 1)
unfolding check_and_heal
check_and_heal_lem int16 links now k w h pid holders body distinct peers_distinct once found stored
      sends =
    let alive = is_holder_alive w now in
    let after =
      get_holders-repaired int16 links now k alive (alive_peers_of w now) w.store w.routing h
        holders distinct found in
    rw after (elim (Bool-cases (ltb (length (only alive holders)) k)) [
      | inl few ↦
          let new = chunk_healed int16 links now k w h holders sends body stored in
          let living = all_alive int16 links now k w h holders sends in
          rw (few, new, living)
            (
              ground (
                arith,
                str_elem-append pid (only alive holders)
                    (targets int16 links now k w h holders sends),
              ),
              enough int16 links now k w h holders sends few,
              once_each int16 links now k w h holders sends peers_distinct once,
            )
      | inr many ↦
          rw many (ground (arith, str_elem-only alive pid holders), ground (arith, many), once)
    ])
