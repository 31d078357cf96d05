-- ===== src/Node.antt =====
-- backend/node/state.py: the peers, the local chunks and the routing of a node. Times and the
-- numbers that peers report (floats in the source) are natural numbers: the code only copies
-- them and tests them for 0. The locks make each operation one step.
pub mod Peers
pub mod Rows
pub mod Restart
mod Tests
use distri_store.Prelude.{
  ℕ, ◌+◌, Bool, not, ◌&&◌, Option, none, some, List, [], ◌∷◌, Str, codes, str_eq, ltb, ◌==◌,
  if◌then◌else◌,
}
use distri_store.Prelude.Dict
use distri_store.Prelude.Dict.{Dict}
use distri_store.Manifest.{is_empty}
use distri_store.Store.{PeerRow, NodeDatabase, upsert_peer, get_all_peers}

pub record PeerInfo : Type 0 where
  pub node_id : Str
  pub ip : Str
  pub tcp_port : ℕ
  pub name : Str
  pub last_seen : ℕ
  pub free_space : ℕ
  pub uptime : ℕ
  pub latency : ℕ
  pub health_score : ℕ
  pub api_port : ℕ

-- `now - last_seen < timeout`
unfoldable pub is_alive : ℕ → ℕ → PeerInfo → Bool
is_alive now timeout p = ltb now (p.last_seen + timeout)

pub record NodeState : Type 0 where
  pub node_id : Str
  pub name : Str
  pub tcp_port : ℕ
  pub start_time : ℕ
  pub peers : Dict PeerInfo
  pub chunks : Dict Str
  pub routing : Dict (List Str)
  pub db : Option NodeDatabase

unfoldable pub init : ℕ → Str → Str → NodeState
init now node_id name = record {
  node_id = node_id;
  name = name;
  tcp_port = 0;
  start_time = now;
  peers = [];
  chunks = [];
  routing = [];
  db = none;
}

unfoldable pub set_database : NodeDatabase → NodeState → NodeState
set_database db s = record s { db = some db }

-- The peer that a row of the database gives.
unfoldable pub peer_of_row : PeerRow → PeerInfo
peer_of_row r = record {
  node_id = r.node_id;
  ip = r.ip;
  tcp_port = r.tcp_port;
  name = r.name;
  last_seen = r.last_seen;
  free_space = 0;
  uptime = 0;
  latency = 0;
  health_score = r.health_score;
  api_port = r.api_port;
}

-- The loop over the rows, which skips the node itself.
unfoldable pub load_rows : Str → List PeerRow → Dict PeerInfo → Dict PeerInfo
unfolding peer_of_row
load_rows self [] peers = peers
load_rows self (r ∷ rows) peers =
    load_rows self rows
      (if str_eq r.node_id self then peers else Dict.put peers r.node_id (peer_of_row r))

-- Without a database there is nothing to load.
unfoldable pub rows_of : Option NodeDatabase → List PeerRow
unfolding get_all_peers
rows_of none = []
rows_of (some db) = get_all_peers db

unfoldable pub load_peers_from_db : NodeState → NodeState
unfolding load_rows rows_of
load_peers_from_db s = record s { peers = load_rows s.node_id (rows_of s.db) s.peers }

-- The known peer with what the new report brings; a report of 0 or of no name leaves a field.
unfoldable pub refresh : ℕ → PeerInfo → PeerInfo → PeerInfo
refresh now peer known = record known {
  last_seen = now;
  ip = peer.ip;
  tcp_port = peer.tcp_port;
  free_space = if peer.free_space == 0 then known.free_space else peer.free_space;
  uptime = if peer.uptime == 0 then known.uptime else peer.uptime;
  health_score = if peer.health_score == 0 then known.health_score else peer.health_score;
  name =
      if not (is_empty peer.name) && not (str_eq peer.name (codes "unknown"))
      then peer.name
      else known.name;
  api_port = if peer.api_port == 0 then known.api_port else peer.api_port;
}

unfoldable pub row_of_peer : PeerInfo → PeerRow
row_of_peer p = record {
  node_id = p.node_id;
  ip = p.ip;
  tcp_port = p.tcp_port;
  api_port = p.api_port;
  name = p.name;
  health_score = p.health_score;
  last_seen = p.last_seen;
}

unfoldable pub persist : PeerInfo → Option NodeDatabase → Option NodeDatabase
unfolding row_of_peer upsert_peer
persist p none = none
persist p (some db) = some (upsert_peer (row_of_peer p) db)

-- The peer as it is kept: refreshed if it is known, or stamped.
unfoldable pub merged_peer : ℕ → PeerInfo → Option PeerInfo → PeerInfo
unfolding refresh
merged_peer now peer none = record peer { last_seen = now }
merged_peer now peer (some known) = refresh now peer known

unfoldable pub add_peer : ℕ → PeerInfo → NodeState → NodeState
unfolding merged_peer persist
add_peer now peer s =
    let kept = merged_peer now peer (Dict.get s.peers peer.node_id) in
    record s { peers = Dict.put s.peers peer.node_id kept; db = persist kept s.db }

unfoldable pub remove_peer : Str → NodeState → NodeState × Option PeerInfo
remove_peer node_id s = (record s { peers = Dict.remove s.peers node_id }, Dict.get s.peers node_id)

unfoldable pub get_peer : Str → NodeState → Option PeerInfo
get_peer node_id s = Dict.get s.peers node_id

unfoldable pub get_all_peers_of : NodeState → Dict PeerInfo
get_all_peers_of s = s.peers

unfoldable pub get_alive_peers : ℕ → ℕ → NodeState → Dict PeerInfo
unfolding is_alive
get_alive_peers now timeout s = Dict.keep_if (is_alive now timeout) s.peers

unfoldable pub register_chunk : Str → Str → NodeState → NodeState
register_chunk chunk_hash file_path s = record s { chunks = Dict.put s.chunks chunk_hash file_path }

unfoldable pub get_chunk_path : Str → NodeState → Option Str
get_chunk_path chunk_hash s = Dict.get s.chunks chunk_hash

unfoldable pub list_chunks : NodeState → Dict Str
list_chunks s = s.chunks

unfoldable pub remove_chunk : Str → NodeState → NodeState × Option Str
remove_chunk chunk_hash s =
    (record s { chunks = Dict.remove s.chunks chunk_hash }, Dict.get s.chunks chunk_hash)

unfoldable pub update_routing : Str → List Str → NodeState → NodeState
update_routing chunk_hash peer_ids s = record s { routing = Dict.put s.routing chunk_hash peer_ids }

unfoldable pub get_chunk_holders : Str → NodeState → List Str
get_chunk_holders chunk_hash s = elim (Dict.get s.routing chunk_hash) [ none ↦ [] | some l ↦ l ]

unfoldable pub get_full_routing_table : NodeState → Dict (List Str)
get_full_routing_table s = s.routing
