-- ===== src/Discovery/Beacons.antt =====
-- Which beacons add a peer.
use mathlib.Core.Option
use distri_store.Prelude.{
  ℕ, [], ◌≡◌, ◌≢◌, ◌⊎◌, refl, sym, ap, ◌∙◌, true, false, ◌&&◌, not, Option, some, inl, inr, Str,
  Bytes, codes, encode, str_eq, str_eq_iff, str_eq_refl, Bool-cases, Option-cases, arith,
}
use distri_store.Prelude.Dict
use distri_store.Prelude.Dict.{get-put_self}
use distri_store.Manifest.{is_empty}
use distri_store.Node.{PeerInfo, NodeState, add_peer, get_peer, merged_peer}
use distri_store.Connection.Handshake.{merged_peer-ip}
use distri_store.Discovery.{
  Health, Payload, Wrapper, Orjson, OrjsonLaws, peer_of_hello, sign, receive_signed,
  datagram_received, build_hello,
}

both {ℓ κ} :
    {A : Type ℓ} {B : Type κ} {a c : A} {b d : B} → a ≡ c → b ≡ d → ◌≡◌ {A = A × B} (a, b) (c, d)
both e f = cc

module _ (hmac : Bytes → Bytes → Str) (swarm_key : Str) (j : Orjson) where
  abbrev IsAccepted : Payload → Str → NodeState → Type 0
  IsAccepted msg signature s =
      (signature ≡ sign hmac swarm_key j msg)
      × (Option.get_or msg.type [] ≡ codes "HELLO")
      × (Option.get_or msg.node_id [] ≢ s.node_id)

  receive_signed_lem :
      (now : ℕ) (ip : Str) (msg : Payload) (signature : Str) (s : NodeState)
      → (receive_signed hmac swarm_key j now ip msg signature s ≡ s)
        ⊎ (IsAccepted msg signature s
            × (receive_signed hmac swarm_key j now ip msg signature s
                ≡ add_peer now (peer_of_hello ip msg) s))
  unfolding receive_signed
  receive_signed_lem now ip msg signature s =
      let good = not (is_empty signature) && str_eq signature (sign hmac swarm_key j msg) in
      let type = Option.get_or msg.type [] in
      let id = Option.get_or msg.node_id [] in
      elim (Bool-cases good) [
        | inr bad ↦ rw bad (inl refl)
        | inl signed ↦
            elim (Bool-cases (str_eq type (codes "HELLO") && not (str_eq id s.node_id))) [
              | inr dropped ↦ rw (signed, dropped) (inl refl)
              | inl taken ↦
                  let same : str_eq signature (sign hmac swarm_key j msg) ≡ true =
                    ground (arith, signed) in
                  let hello : str_eq type (codes "HELLO") ≡ true = ground (arith, taken) in
                  let other : str_eq id s.node_id ≡ false = ground (arith, taken) in
                  rw (signed, taken)
                    (inr (
                      (
                        (str_eq_iff signature (sign hmac swarm_key j msg)).0 same,
                        (str_eq_iff type (codes "HELLO")).0 hello,
                        λ e. cc (sym other ∙ (str_eq_iff id s.node_id).1 e),
                      ),
                      refl,
                    ))
            ]
      ]

  -- A beacon leaves the node as it is, or it is a HELLO of another node with the signature under
  -- the key of the swarm, and adds that node under the address that it came from.
  pub datagram_received_lem :
      (now : ℕ) (ip : Str) (body : Bytes) (s : NodeState)
      → (datagram_received hmac swarm_key j now ip body s ≡ s)
        ⊎ ((msg : Payload) × (j.loads body
              ≡ some (record { payload = some msg; signature = some (sign hmac swarm_key j msg) }))
            × (Option.get_or msg.type [] ≡ codes "HELLO")
            × (Option.get_or msg.node_id [] ≢ s.node_id)
            × (datagram_received hmac swarm_key j now ip body s
                ≡ add_peer now (peer_of_hello ip msg) s))
  unfolding datagram_received
  datagram_received_lem now ip body s = elim (Option-cases (j.loads body)) [
    | inl broken ↦ rw (datagram_received, broken) (inl refl)
    | inr (w, loaded) ↦ elim (Option-cases w.payload) [
      | inl no_payload ↦ rw (datagram_received, loaded, no_payload) (inl refl)
      | inr (msg, some_payload) ↦ elim (Option-cases w.signature) [
        | inl unsigned ↦ rw (datagram_received, loaded, some_payload, unsigned) (inl refl)
        | inr (signature, some_signature) ↦
            let run : datagram_received hmac swarm_key j now ip body s
                ≡ receive_signed hmac swarm_key j now ip msg signature s =
              rw (datagram_received, loaded, some_payload, some_signature) refl in
            elim (receive_signed_lem now ip msg signature s) [
              | inl kept ↦ inl (run ∙ kept)
              | inr (ok_beacon, added) ↦
                  let wrapper : w ≡ record {
                    payload = some msg;
                    signature = some (sign hmac swarm_key j msg);
                  } =
                    ap
                      (λ (x : Option Payload × Option Str). record {
                        payload = x.0;
                        signature = x.1;
                      })
                      (both some_payload (some_signature ∙ ap (λ (x : Str). some x) ok_beacon.0)) in
                  inr (
                    msg,
                    loaded ∙ ap (λ (x : Wrapper). some x) wrapper,
                    ok_beacon.1,
                    ok_beacon.2,
                    run ∙ added,
                  )
            ]
      ]
    ]
  ]

module _ (hmac : Bytes → Bytes → Str)
    (signs : (key text : Bytes) → is_empty (hmac key text) ≡ false) (swarm_key : Str) (j : Orjson)
    (laws : OrjsonLaws j) where
  -- When the signatures are not empty and two nodes have different ids: the beacon of a node, received by another node of the same
  -- swarm, makes the node a peer there, under the address that the beacon came from.
  pub datagram_received-build_hello :
      (now sent api_port uptime : ℕ) (health : Health) (ip : Str) (from s : NodeState)
      → from.node_id ≢ s.node_id
      → (peer : PeerInfo) × (get_peer from.node_id (
            datagram_received hmac swarm_key j now ip
              (build_hello hmac swarm_key j sent api_port health uptime from)
              s)
          ≡ some peer)
        × (peer.ip ≡ ip)
  unfolding datagram_received build_hello receive_signed add_peer get_peer
  datagram_received-build_hello now sent api_port uptime health ip from s other =
      let payload : Payload = record {
        type = some (codes "HELLO");
        node_id = some from.node_id;
        name = some from.name;
        tcp_port = some from.tcp_port;
        api_port = some api_port;
        uptime = some uptime;
        timestamp = some sent;
        health = some health;
      } in
      let loaded =
        laws.loads-dumps
          (record { payload = some payload; signature = some (sign hmac swarm_key j payload) }) in
      let signed = str_eq_refl (sign hmac swarm_key j payload) in
      let filled = signs (encode swarm_key) (j.dumps_payload payload) in
      let hello = str_eq_refl (codes "HELLO") in
      let different : str_eq from.node_id s.node_id ≡ false =
        elim (Bool-cases (str_eq from.node_id s.node_id)) [
          | inr different ↦ different
          | inl same ↦ absurd (other ((str_eq_iff from.node_id s.node_id).0 same))
        ] in
      let peer = peer_of_hello ip payload in
      let known = Dict.get s.peers from.node_id in
      rw (datagram_received, loaded, signed, filled, hello, different)
        (
          merged_peer now peer known,
          get-put_self s.peers from.node_id (merged_peer now peer known),
          merged_peer-ip now peer known,
        )
