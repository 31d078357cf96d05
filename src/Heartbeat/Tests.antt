-- ===== src/Heartbeat/Tests.antt =====
-- The heartbeat, run with one peer.
use distri_store.Prelude.{
  ℕ, ◌+◌, ◌≡◌, refl, true, false, none, some, inr, [], ◌∷◌, codes, str_eq, ltb, arith,
  if◌then◌else◌,
}
use distri_store.Prelude.Dict
use distri_store.Node.{PeerInfo, get_peer}
use distri_store.Heartbeat.{HeartbeatMonitor, Turn, heartbeat_turn, turns}
use distri_store.Heartbeat.Timeouts.{heartbeat_turn_lem, turns_never_give_up}

abbrev peer : PeerInfo
peer = record {
  node_id = codes "p";
  ip = codes "10.0.0.2";
  tcp_port = 50001;
  name = codes "p";
  last_seen = 0;
  free_space = 5;
  uptime = 6;
  latency = 0;
  health_score = 7;
  api_port = 8888;
}

-- A ping was sent at 10.
abbrev monitor : HeartbeatMonitor
monitor = record {
  node = record {
    node_id = codes "n";
    name = codes "n";
    tcp_port = 50001;
    start_time = 0;
    peers = (codes "p", peer) ∷ [];
    chunks = [];
    routing = [];
    db = none;
  };
  pending_pings = (codes "p", 10) ∷ [];
}

known : get_peer (codes "p") monitor.node ≡ some peer
unfolding get_peer Dict.get str_eq
known = refl

waiting : Dict.get monitor.pending_pings (codes "p") ≡ some 10
unfolding Dict.get str_eq
waiting = refl

one_ping : Dict.IsDistinct monitor.pending_pings
unfolding Dict.get
one_ping = (refl, tt)

-- Out of reach at 30, and looked at when 36 has come.
abbrev out_of_reach : Turn
out_of_reach = record { reach = λ k. false; now = λ k. 30; pongs = []; later = 36 }

heartbeat_turn_lem_example :
    get_peer (codes "p") (heartbeat_turn 15 out_of_reach monitor).node
    ≡ (if ltb (10 + 15) 36 then none else some peer)
heartbeat_turn_lem_example =
    heartbeat_turn_lem 15 10 out_of_reach monitor (codes "p") peer refl one_ping known (inr waiting)

abbrev in_reach : ℕ → Turn
in_reach now = record { reach = λ k. true; now = λ k. now; pongs = []; later = now + 6 }

turns_never_give_up_example :
    get_peer (codes "p") (turns 15 (in_reach 30 ∷ in_reach 36 ∷ []) monitor).node ≡ some peer
turns_never_give_up_example =
    turns_never_give_up 15 (in_reach 30 ∷ in_reach 36 ∷ []) monitor (codes "p") peer one_ping known
      ((refl, refl, omega arith), ((refl, refl, omega arith), tt))
