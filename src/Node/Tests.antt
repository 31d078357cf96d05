-- ===== src/Node/Tests.antt =====
-- A node that hears of a peer.
use distri_store.Prelude.{◌≡◌, refl, false, some, [], codes, str_eq, arith, if◌then◌else◌}
use distri_store.Prelude.Dict
use distri_store.Store.{NodeDatabase}
use distri_store.Node.{
  PeerInfo, NodeState, init, merged_peer, add_peer, get_peer, get_alive_peers, peer_of_row,
  row_of_peer, load_peers_from_db, load_rows, rows_of, set_database,
}
use distri_store.Node.Peers.{NodeOk, get_alive_peers-add_peer}
use distri_store.Node.Restart.{boot, here, next, report, Reach-boot_recovers}

abbrev peer : PeerInfo
peer = record {
  node_id = codes "p";
  ip = codes "10.0.0.2";
  tcp_port = 5000;
  name = codes "unknown";
  last_seen = 0;
  free_space = 0;
  uptime = 7;
  latency = 0;
  health_score = 3;
  api_port = 8888;
}

abbrev blank : NodeState
blank = init 0 (codes "n") (codes "node")

blank-NodeOk : NodeOk blank
unfolding init Dict.get
blank-NodeOk = record { distinct = tt; keyed = λ k p e. absurd (cc) }

get_alive_peers-add_peer_example :
    Dict.get (get_alive_peers 100 15 (add_peer 100 peer blank)) (codes "p") ≡ (
      if str_eq (codes "p") (codes "p")
      then some (merged_peer 100 peer (get_peer (codes "p") blank))
      else Dict.get (get_alive_peers 100 15 blank) (codes "p"))
get_alive_peers-add_peer_example =
    get_alive_peers-add_peer 100 15 peer blank (codes "p") blank-NodeOk (omega arith)

abbrev fresh : NodeDatabase
fresh = record { peers = []; manifests = [] }

abbrev stamped : PeerInfo
stamped = record peer { last_seen = 5 }

abbrev heard : NodeState
heard = add_peer 5 peer (boot 1 (codes "n") (codes "node") fresh)

heard_peer : get_peer (codes "p") heard ≡ some stamped
unfolding get_peer add_peer boot init set_database load_peers_from_db load_rows rows_of Dict.get
    Dict.put str_eq merged_peer
heard_peer = refl

other_id : str_eq (codes "p") (codes "n") ≡ false
unfolding str_eq
other_id = refl

Reach-boot_recovers_example :
    (saved : NodeDatabase) × (heard.db ≡ some saved)
    × (get_peer (codes "p") (boot 9 (codes "n") (codes "node") saved)
        ≡ some (peer_of_row (row_of_peer stamped)))
Reach-boot_recovers_example =
    Reach-boot_recovers 1 9 (codes "n") (codes "node") fresh (codes "p") tt tt
      (next here (report 5 peer (boot 1 (codes "n") (codes "node") fresh))) heard_peer other_id
