-- ===== src/Discovery/Tests.antt =====
-- A beacon of one node, received by another.
use mathlib.Core.Option
use distri_store.Prelude.{
  ◌≡◌, ◌≢◌, ◌⊎◌, refl, some, none, [], ◌∷◌, ◌++◌, Str, Bytes, codes, str_eq, encode,
}
use distri_store.Node.{NodeState, init, add_peer}
use distri_store.Discovery.{Payload, Orjson, peer_of_hello, sign, receive_signed, datagram_received}
use distri_store.Discovery.Beacons.{datagram_received_lem}

abbrev hmac : Bytes → Bytes → Str
hmac key text = 1 ∷ key ++ text

abbrev hello : Payload
hello = record {
  type = some (codes "HELLO");
  node_id = some (codes "a");
  name = none;
  tcp_port = some 50002;
  api_port = none;
  uptime = none;
  timestamp = none;
  health = none;
}

-- Every datagram is the beacon of node a, with itself as the signature.
abbrev orjson : Orjson
orjson = record {
  loads = λ b. some (record { payload = some hello; signature = some b });
  dumps = λ w. Option.get_or w.signature [];
  dumps_payload = λ p. Option.get_or p.node_id [];
}

abbrev receiver : NodeState
receiver = init 0 (codes "b") (codes "receiver")

abbrev key : Str
key = codes "k"

abbrev body : Bytes
body = sign hmac key orjson hello

adds_peer :
    datagram_received hmac key orjson 9 (codes "10.0.0.1") body receiver
    ≡ add_peer 9 (peer_of_hello (codes "10.0.0.1") hello) receiver
unfolding datagram_received receive_signed init add_peer str_eq encode
adds_peer = refl

rejects_forgery :
    datagram_received hmac key orjson 9 (codes "10.0.0.1") (7 ∷ []) receiver ≡ receiver
unfolding datagram_received receive_signed init str_eq
rejects_forgery = refl

datagram_received_lem_example :
    (datagram_received hmac key orjson 9 (codes "10.0.0.1") body receiver ≡ receiver)
    ⊎ ((msg : Payload) × (orjson.loads body
          ≡ some (record { payload = some msg; signature = some (sign hmac key orjson msg) }))
        × (Option.get_or msg.type [] ≡ codes "HELLO")
        × (Option.get_or msg.node_id [] ≢ receiver.node_id)
        × (datagram_received hmac key orjson 9 (codes "10.0.0.1") body receiver
            ≡ add_peer 9 (peer_of_hello (codes "10.0.0.1") msg) receiver))
datagram_received_lem_example =
    datagram_received_lem hmac key orjson 9 (codes "10.0.0.1") body receiver
