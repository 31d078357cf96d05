-- ===== src/Connection.antt =====
-- backend/network/connection.py and protocol.py: the frames of the TCP connections, and the
-- handshake by which peers get to know each other. msgpack and HMAC are parameters. A connection is
-- a number; what it has received so far is a list of bytes, and `none` is an exception of `send`.
pub mod Framing
pub mod Handshake
mod Tests
use distri_store.Prelude.{
  ℕ, zero, suc, ◌+◌, ◌*◌, ◌/◌, ◌%◌, ◌≡◌, ◌&&◌, Bool, true, false, not, Option, none, some, List, [],
  ◌∷◌, ◌++◌, Str, Bytes, codes, encode, str_eq, length, take, drop, ltb, leb, if◌then◌else◌,
}
use distri_store.Prelude.Dict
use distri_store.Prelude.Dict.{Dict}
use distri_store.Manifest.{is_empty}
use distri_store.Node.{PeerInfo, NodeState, add_peer}
use mathlib.Core.Option

abbrev pub stream_limit : ℕ
stream_limit = 8388608

-- `len(payload).to_bytes(4, 'big')`, which raises for a length that has more bytes.
unfoldable pub to_bytes4 : ℕ → Option Bytes
to_bytes4 n =
    if ltb n 4294967296
    then some (n / 16777216 ∷ n / 65536 % 256 ∷ n / 256 % 256 ∷ n % 256 ∷ [])
    else none

-- `readexactly(4)` with `int.from_bytes(…, 'big')`, and the bytes that follow.
unfoldable pub read_header : Bytes → Option (ℕ × Bytes)
read_header (a ∷ b ∷ c ∷ d ∷ rest) = some (a * 16777216 + b * 65536 + c * 256 + d, rest)
read_header _ = none

-- `readexactly(n)`
unfoldable pub read_exactly : ℕ → Bytes → Option (Bytes × Bytes)
read_exactly n stream = if ltb (length stream) n then none else some (take n stream, drop n stream)

-- msgpack, on the messages of the program.
pub record Msgpack {ℓ} (M : Type ℓ) : Type ℓ where
  pub packb : M → Bytes
  pub unpackb : Bytes → Option M

-- What msgpack documents: unpacking undoes packing.
pub record MsgpackLaws {ℓ} {M : Type ℓ} (q : Msgpack M) : Type ℓ where
  pub unpacks : (m : M) → q.unpackb (q.packb m) ≡ some m

module _ {ℓ} {M : Type ℓ} (q : Msgpack M) where
  -- The bytes that `send` writes.
  unfoldable pub send : M → Option Bytes
  unfolding to_bytes4
  send message =
      let payload = q.packb message in
      elim (to_bytes4 (length payload)) [ none ↦ none | some header ↦ some (header ++ payload) ]

  -- The message, and what is left of the stream; every failure gives `none`.
  unfoldable pub receive : Bytes → Option M × Bytes
  unfolding read_header read_exactly
  receive stream = elim (read_header stream) [
    | none ↦ (none, [])
    | some (size, rest) ↦
        if ltb stream_limit size then (none, rest) else elim (read_exactly size rest) [
          | none ↦ (none, [])
          | some (payload, later) ↦ (q.unpackb payload, later)
        ]
  ]

  -- The message loop: it ends with the first `none`. A message takes at least the four bytes of its
  -- header, so that the number of bytes is enough fuel.
  unfoldable pub receive_loop : ℕ → Bytes → List M
  unfolding receive
  receive_loop zero stream = []
  receive_loop (suc fuel) stream =
      let rest = receive_loop fuel (receive stream).1 in
      elim (receive stream).0 [ none ↦ [] | some m ↦ m ∷ rest ]

  unfoldable pub receive_all : Bytes → List M
  unfolding receive_loop
  receive_all stream = receive_loop (length stream) stream

-- A message of the handshake; a key that may be absent is an Option.
pub record Message : Type 0 where
  pub type : Option Str
  pub node_id : Option Str
  pub signature : Option Str
  pub name : Option Str
  pub tcp_port : Option ℕ
  pub api_port : Option ℕ

abbrev pub has_type : Str → Message → Bool
has_type type m = str_eq (Option.get_or m.type []) type

module _ (hmac : Bytes → Bytes → Str) where
  unfoldable pub auth_handshake_msg : Str → Str → Message
  auth_handshake_msg node_id swarm_key = record {
    type = some (codes "AUTH");
    node_id = some node_id;
    signature = some (hmac (encode swarm_key) (encode node_id));
    name = none;
    tcp_port = none;
    api_port = none;
  }

  -- The test of the AUTH message.
  unfoldable pub is_authorized : Str → Message → Bool
  is_authorized swarm_key m =
      has_type (codes "AUTH") m
      && str_eq (Option.get_or m.signature [])
          (hmac (encode swarm_key) (encode (Option.get_or m.node_id [])))

-- The handshake that a node sends to a peer, and its answer to one.
unfoldable pub handshake_msg : Str → ℕ → NodeState → Message
handshake_msg type api_port s = record {
  type = some type;
  node_id = some s.node_id;
  signature = none;
  name = some s.name;
  tcp_port = some s.tcp_port;
  api_port = some api_port;
}

pub record ConnectionManager : Type 0 where
  pub state : NodeState
  pub connections : Dict ℕ

-- The peer that a handshake announces; `default_port` is the port for one that names none.
unfoldable pub peer_of_handshake : Str → ℕ → Message → PeerInfo
peer_of_handshake ip default_port m = record {
  node_id = Option.get_or m.node_id [];
  ip = ip;
  tcp_port = Option.get_or m.tcp_port default_port;
  name = Option.get_or m.name (codes "unknown");
  last_seen = 0;
  free_space = 0;
  uptime = 0;
  latency = 0;
  health_score = 0;
  api_port = Option.get_or m.api_port 8888;
}

-- A connection is entered under the id of the handshake, and the peer is added.
unfoldable pub register : ℕ → Str → ℕ → ℕ → Message → ConnectionManager → ConnectionManager
unfolding peer_of_handshake
register now ip default_port conn m c = record {
  state = add_peer now (peer_of_handshake ip default_port m) c.state;
  connections = Dict.put c.connections (Option.get_or m.node_id []) conn;
}

-- The `finally` of a handler: the entry under the id of its connection goes.
unfoldable pub close_client : Str → ConnectionManager → ConnectionManager
close_client peer_id c = record c { connections = Dict.remove c.connections peer_id }

module _ (hmac : Bytes → Bytes → Str) (swarm_key : Str) where
  -- An incoming connection up to its message loop: the AUTH message, or `none` for a time-out or a
  -- failure, and the handshake. The result is the id of the connection, if it is accepted.
  unfoldable pub handle_client :
      ℕ
      → Str
      → ℕ
      → Option Message
      → Option Message
      → ConnectionManager
      → ConnectionManager × Option Str
  unfolding is_authorized register close_client
  handle_client now ip conn none handshake c = (close_client [] c, none)
  handle_client now ip conn (some auth) none c = (close_client [] c, none)
  handle_client now ip conn (some auth) (some m) c =
      if is_authorized hmac swarm_key auth && has_type (codes "HANDSHAKE") m
      then (register now ip 0 conn m c, some (Option.get_or m.node_id []))
      else (close_client [] c, none)

  -- What an outgoing connection sends first.
  unfoldable pub greetings : ℕ → NodeState → List Message
  unfolding auth_handshake_msg handshake_msg
  greetings api_port s =
      auth_handshake_msg hmac s.node_id swarm_key
      ∷ handshake_msg (codes "HANDSHAKE") api_port s
      ∷ []

-- An outgoing connection to an address, when it could be opened, with the answer to its handshake.
unfoldable pub connect_to_peer :
    ℕ → Str → ℕ → ℕ → Option Message → ConnectionManager → ConnectionManager × Option ℕ
unfolding register
connect_to_peer now ip port conn none c = (c, none)
connect_to_peer now ip port conn (some ack) c =
    if has_type (codes "HANDSHAKE_ACK") ack
    then (register now ip port conn ack c, some conn)
    else (c, none)

-- `sends` says over which connections a message can be sent.
unfoldable pub send_to_peer : (ℕ → Bool) → Str → ConnectionManager → Bool
send_to_peer sends node_id c = elim (Dict.get c.connections node_id) [
  | none ↦ false
  | some conn ↦ sends conn
]

unfoldable pub count_sent : (Str → Bool) → List Str → ℕ
count_sent sent [] = 0
count_sent sent (nid ∷ nids) = (if sent nid then 1 else 0) + count_sent sent nids

unfoldable pub broadcast_to_peers : (ℕ → Bool) → ConnectionManager → ℕ
unfolding send_to_peer count_sent
broadcast_to_peers sends c = count_sent (λ nid. send_to_peer sends nid c) (Dict.keys c.connections)
