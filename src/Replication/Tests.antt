-- ===== src/Replication/Tests.antt =====
-- Replication and repair, run on a node with three peers, one of which is not alive.
use distri_store.Prelude.{
  arith, str_eq_iff, ℕ, ◌+◌, ◌≤◌, ◌≡◌, refl, true, false, not, ◌&&◌, Option, none, some, inl, [],
  ◌∷◌, min, Str, codes, str_eq, length,
}
use distri_store.Prelude.Dict
use distri_store.Prelude.Distinct.{occurrences}
use distri_store.Manifest.{is_empty, FileManifest}
use distri_store.Local.{load_chunk}
use distri_store.Node.{PeerInfo, NodeState, get_alive_peers, get_chunk_path}
use distri_store.Dht.{str_elem, get_holders}
use distri_store.Replication.{
  Links, World, only, send_to_target, select_targets, replicate_chunks, check_and_heal,
}
use distri_store.Replication.Targets.{select_targets_lem}
use distri_store.Replication.Copies.{IsReported, replicate_chunks_lem}
use distri_store.Replication.Repair.{is_holder_alive, candidates_for, check_and_heal_lem}

abbrev peer : Str → ℕ → PeerInfo
peer id seen = record {
  node_id = id;
  ip = codes "10.0.0.2";
  tcp_port = 50001;
  name = codes "p";
  last_seen = seen;
  free_space = 5;
  uptime = 6;
  latency = 0;
  health_score = 7;
  api_port = 8888;
}

abbrev node : NodeState
node = record {
  node_id = codes "0";
  name = codes "n";
  tcp_port = 50001;
  start_time = 0;
  peers =
      (codes "1", peer (codes "1") 95)
      ∷ (codes "2", peer (codes "2") 20)
      ∷ (codes "3", peer (codes "3") 99)
      ∷ [];
  chunks = [];
  routing = [];
  db = none;
}

-- The first digit, of the ids in use.
abbrev int16 : Str → Option ℕ
int16 [] = none
int16 (c ∷ s) = some c

abbrev links : Str → Links
links h = record { connected = λ pid. true; connects = λ ip port. false; delivers = λ pid. true }

abbrev score : Dict.Dict PeerInfo → PeerInfo → ℕ
score peers p = p.last_seen

-- The chunk that is named "a" is held by the node and by the peer that is not alive.
abbrev world : World
world = record {
  store = record {
    files = (codes "a", record { body = 1 ∷ 2 ∷ []; accessed = 0 }) ∷ [];
    other_bytes = 0;
    db = record { peers = []; manifests = [] };
  };
  node = node;
  routing = (codes "a", codes "0" ∷ codes "2" ∷ []) ∷ [];
}

peers-IsDistinct : Dict.IsDistinct node.peers
unfolding Dict.get str_eq
peers-IsDistinct = (refl, (refl, (refl, tt)))

select_targets_lem_example :
    let targets = select_targets score int16 100 3 node (codes "1") in
    let alive = Dict.keys (get_alive_peers 100 15 node) in
    (occurrences (codes "2") targets ≤ occurrences (codes "2") alive)
    × (occurrences (codes "2") alive ≤ 1)
    × (length targets ≡ min 3 (length alive))
select_targets_lem_example =
    select_targets_lem score int16 100 3 node (codes "1") (codes "2") peers-IsDistinct

abbrev manifest : FileManifest
manifest = record {
  original_filename = codes "f";
  original_size = 2;
  file_hash = codes "ff";
  chunk_size = 2;
  merkle_root = codes "a";
  compression = [];
  chunks = record { index = 0; chunk_hash = codes "a"; size = 2; encrypted = false } ∷ [];
}

replicate_chunks_lem_example :
    let (after, results) =
      replicate_chunks score int16 100 3 links manifest ((1 ∷ 2 ∷ []) ∷ []) world in
    (load_chunk (codes "a") after.store ≡ some (1 ∷ 2 ∷ []))
    × (get_chunk_path (codes "a") after.node ≡ some (codes "a"))
    × IsReported 3
        (codes "a")
        after
        results
        (is_empty (select_targets score int16 100 3 after.node (codes "a")))
replicate_chunks_lem_example =
    replicate_chunks_lem score int16 100 3 links (λ h. 1 ∷ 2 ∷ []) manifest ((1 ∷ 2 ∷ []) ∷ [])
      world (codes "a") (refl, tt) (inl refl)

found : Dict.get world.routing (codes "a") ≡ some (codes "0" ∷ codes "2" ∷ [])
unfolding Dict.get str_eq
found = refl

stored : load_chunk (codes "a") world.store ≡ some (1 ∷ 2 ∷ [])
unfolding load_chunk Dict.get str_eq
stored = refl

one_place : (q : Str) → occurrences q (codes "0" ∷ codes "2" ∷ []) ≤ 1
unfolding occurrences str_eq
one_place q = ground (arith, str_eq_iff (codes "0") q, str_eq_iff (codes "2") q)

check_and_heal_lem_example :
    let after = get_holders (codes "a") (check_and_heal int16 links 100 3 world).routing in
    let alive = is_holder_alive world 100 in
    let holders = codes "0" ∷ codes "2" ∷ [] in
    ((str_elem (codes "0") (only alive holders) && not (str_elem (codes "0") after)) ≡ false)
    × (min 3 (
          length (only alive holders) + length (candidates_for world 100 int16 (codes "a") holders))
        ≤ length (only alive after))
    × ((q : Str) → occurrences q after ≤ 1)
unfolding Dict.get send_to_target str_eq
check_and_heal_lem_example =
    check_and_heal_lem int16 links 100 3 world (codes "a") (codes "0") (codes "0" ∷ codes "2" ∷ [])
      (1 ∷ 2 ∷ []) (refl, tt) (refl, (refl, (refl, tt))) one_place found stored (λ q e. refl)
