-- ===== src/Discovery.antt =====
-- backend/network/discovery.py: the beacons by which nodes find each other. orjson and HMAC are
-- parameters, and so are the readings of the machine. Beacons of other programs that are no
-- dictionaries are dropped like those that do not parse.
pub mod Beacons
mod Tests
use mathlib.Core.Option
use distri_store.Prelude.{
  ℕ, ◌*◌, ◌/◌, ◌&&◌, ◌≡◌, not, [], Option, none, some, Str, Bytes, codes, encode, str_eq,
  if◌then◌else◌,
}
use distri_store.Manifest.{is_empty}
use distri_store.Node.{PeerInfo, NodeState, add_peer}

-- What compute_health_score measures.
pub record Health : Type 0 where
  pub free_ram_mb : Option ℕ
  pub cpu_freq_ghz : Option ℕ
  pub cpu_percent : Option ℕ
  -- In hundredths, to which it is rounded.
  pub free_disk_gb : Option ℕ
  pub health_score : Option ℕ

-- A key that may be absent is an Option.
pub record Payload : Type 0 where
  pub type : Option Str
  pub node_id : Option Str
  pub name : Option Str
  pub tcp_port : Option ℕ
  pub api_port : Option ℕ
  pub uptime : Option ℕ
  pub timestamp : Option ℕ
  pub health : Option Health

pub record Wrapper : Type 0 where
  pub payload : Option Payload
  pub signature : Option Str

-- orjson, with `dumps_payload` for the dump with sorted keys that is signed.
pub record Orjson : Type 0 where
  pub loads : Bytes → Option Wrapper
  pub dumps : Wrapper → Bytes
  pub dumps_payload : Payload → Bytes

-- What orjson documents: loading undoes dumping.
pub record OrjsonLaws (j : Orjson) : Type 0 where
  pub loads-dumps : (w : Wrapper) → j.loads (j.dumps w) ≡ some w

abbrev pub no_health : Health
no_health = record {
  free_ram_mb = none;
  cpu_freq_ghz = none;
  cpu_percent = none;
  free_disk_gb = none;
  health_score = none;
}

-- The free space is the float product up to its rounding.
unfoldable pub peer_of_hello : Str → Payload → PeerInfo
peer_of_hello ip msg =
    let health = Option.get_or msg.health no_health in
    record {
      node_id = Option.get_or msg.node_id [];
      ip = ip;
      tcp_port = Option.get_or msg.tcp_port 50001;
      name = Option.get_or msg.name (codes "unknown");
      last_seen = 0;
      free_space = Option.get_or health.free_disk_gb 0 * 1073741824 / 100;
      uptime = Option.get_or msg.uptime 0;
      latency = 0;
      health_score = Option.get_or health.health_score 0;
      api_port = Option.get_or msg.api_port 8888;
    }

module _ (hmac : Bytes → Bytes → Str) (swarm_key : Str) (j : Orjson) where
  abbrev pub sign : Payload → Str
  sign payload = hmac (encode swarm_key) (j.dumps_payload payload)

  -- A beacon whose signature was found.
  unfoldable pub receive_signed : ℕ → Str → Payload → Str → NodeState → NodeState
  unfolding peer_of_hello
  receive_signed now ip msg signature s =
      if not (is_empty signature) && str_eq signature (sign msg)
      then if str_eq (Option.get_or msg.type []) (codes "HELLO")
          && not (str_eq (Option.get_or msg.node_id []) s.node_id)
        then add_peer now (peer_of_hello ip msg) s
        else s
      else s

  unfoldable pub datagram_received : ℕ → Str → Bytes → NodeState → NodeState
  unfolding receive_signed
  datagram_received now ip body s = elim (j.loads body) [
    | none ↦ s
    | some wrapper ↦ elim wrapper.payload [
      | none ↦ s
      | some msg ↦ elim wrapper.signature [
        | none ↦ s
        | some signature ↦ receive_signed now ip msg signature s
      ]
    ]
  ]

  unfoldable pub build_hello : ℕ → ℕ → Health → ℕ → NodeState → Bytes
  build_hello now api_port health uptime s =
      let payload : Payload = record {
        type = some (codes "HELLO");
        node_id = some s.node_id;
        name = some s.name;
        tcp_port = some s.tcp_port;
        api_port = some api_port;
        uptime = some uptime;
        timestamp = some now;
        health = some health;
      } in
      j.dumps (record { payload = some payload; signature = some (sign payload) })
