-- ===== src/Heartbeat.antt =====
-- backend/advanced/heartbeat.py: pings, their answers and the peers that are given up. `reach` says
-- to whom there is a connection over which a ping can be sent. Times are in seconds.
pub mod Timeouts
mod Tests
use distri_store.Prelude.{
  ℕ, ◌+◌, ◌-◌, ◌*◌, Bool, Option, none, some, List, [], ◌∷◌, Str, ltb, if◌then◌else◌,
}
use distri_store.Prelude.Dict
use distri_store.Prelude.Dict.{Dict}
use distri_store.Node.{PeerInfo, NodeState, get_peer, get_all_peers_of, remove_peer, add_peer}

pub record HeartbeatMonitor : Type 0 where
  pub node : NodeState
  pub pending_pings : Dict ℕ

unfoldable pub ping_each : (Str → Bool) → (Str → ℕ) → List Str → Dict ℕ → Dict ℕ
ping_each reach now [] pending = pending
ping_each reach now (peer_id ∷ peer_ids) pending =
    ping_each reach now peer_ids
      (if reach peer_id then Dict.put pending peer_id (now peer_id) else pending)

unfoldable pub ping_all_peers : (Str → Bool) → (Str → ℕ) → HeartbeatMonitor → HeartbeatMonitor
unfolding ping_each get_all_peers_of
ping_all_peers reach now h = record h {
  pending_pings = ping_each reach now (Dict.keys (get_all_peers_of h.node)) h.pending_pings;
}

-- The loop over the pending pings: those that are left, and the peers that are given up.
unfoldable pub split_pending : ℕ → ℕ → Dict ℕ → Dict ℕ × List Str
split_pending timeout now [] = ([], [])
split_pending timeout now ((peer_id, sent_time) ∷ pending) =
    let (left, dead) = split_pending timeout now pending in
    if ltb (sent_time + timeout) now
    then (left, peer_id ∷ dead)
    else ((peer_id, sent_time) ∷ left, dead)

unfoldable pub remove_each : List Str → NodeState → NodeState
remove_each [] s = s
remove_each (peer_id ∷ dead) s = remove_each dead (remove_peer peer_id s).0

unfoldable pub check_timeouts : ℕ → ℕ → HeartbeatMonitor → HeartbeatMonitor
unfolding split_pending remove_each
check_timeouts timeout now h =
    let (left, dead) = split_pending timeout now h.pending_pings in
    record { node = remove_each dead h.node; pending_pings = left }

-- `get_peer` gives the object that is in the table, so that writing its fields writes the table.
unfoldable pub update_peer : ℕ → ℕ → ℕ → ℕ → PeerInfo → NodeState → NodeState
update_peer now latency uptime free_space known s =
    let peer = record known {
      latency = latency;
      uptime = uptime;
      free_space = free_space;
      last_seen = now;
    } in
    add_peer now peer (record s { peers = Dict.put s.peers known.node_id peer })

unfoldable pub handle_pong : ℕ → Str → ℕ → ℕ → HeartbeatMonitor → HeartbeatMonitor
unfolding update_peer
handle_pong now peer_id uptime free_space h = elim (Dict.get h.pending_pings peer_id) [
  | none ↦ h
  | some sent_time ↦ record {
    node = elim (get_peer peer_id h.node) [
      | none ↦ h.node
      | some known ↦ update_peer now ((now - sent_time) * 1000) uptime free_space known h.node
    ];
    pending_pings = Dict.remove h.pending_pings peer_id;
  }
]

-- A pong: when it arrives, from which peer, and what it says.
pub record Pong : Type 0 where
  pub at : ℕ
  pub peer_id : Str
  pub uptime : ℕ
  pub free_space : ℕ

unfoldable pub handle_pongs : List Pong → HeartbeatMonitor → HeartbeatMonitor
unfolding handle_pong
handle_pongs [] h = h
handle_pongs (pong ∷ pongs) h =
    handle_pongs pongs (handle_pong pong.at pong.peer_id pong.uptime pong.free_space h)

-- A turn of the loop: to whom a ping can be sent, when the ping to each peer is sent, the pongs that
-- are handled until the sleep is over, and when the time-outs are looked at.
pub record Turn : Type 0 where
  pub reach : Str → Bool
  pub now : Str → ℕ
  pub pongs : List Pong
  pub later : ℕ

unfoldable pub heartbeat_turn : ℕ → Turn → HeartbeatMonitor → HeartbeatMonitor
unfolding ping_all_peers check_timeouts handle_pongs
heartbeat_turn timeout t h =
    check_timeouts timeout t.later (handle_pongs t.pongs (ping_all_peers t.reach t.now h))

unfoldable pub turns : ℕ → List Turn → HeartbeatMonitor → HeartbeatMonitor
unfolding heartbeat_turn
turns timeout [] h = h
turns timeout (t ∷ ts) h = turns timeout ts (heartbeat_turn timeout t h)
