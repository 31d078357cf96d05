-- ===== src/Connection/Handshake.antt =====
-- Who is let in, and that two nodes of one swarm get to know each other.
use mathlib.Core.Option
use distri_store.Prelude.{
  ℕ, ◌≡◌, ◌⊎◌, refl, true, Option, none, some, inl, inr, [], Str, Bytes, codes, encode, str_eq,
  str_eq_refl, str_eq_iff, arith, Bool-cases,
}
use distri_store.Prelude.Dict
use distri_store.Prelude.Dict.{get-put_self}
use distri_store.Node.{PeerInfo, NodeState, add_peer, get_peer, merged_peer}
use distri_store.Connection.{
  Message, has_type, auth_handshake_msg, is_authorized, handshake_msg, ConnectionManager,
  peer_of_handshake, register, close_client, handle_client, connect_to_peer,
}

-- A registered connection is the one to the peer, and the peer is known under its address.
pub record IsRegistered (conn : ℕ) (ip : Str) (m : Message) (c : ConnectionManager) : Type 0 where
  pub connection : Dict.get c.connections (Option.get_or m.node_id []) ≡ some conn
  pub peer : PeerInfo
  pub known : get_peer (Option.get_or m.node_id []) c.state ≡ some peer
  pub address : peer.ip ≡ ip

pub merged_peer-ip :
    (now : ℕ) (p : PeerInfo) (o : Option PeerInfo) → (merged_peer now p o).ip ≡ p.ip
unfolding merged_peer
merged_peer-ip now p none = refl
merged_peer-ip now p (some known) = refl

register-IsRegistered :
    (now : ℕ) (ip : Str) (default_port conn : ℕ) (m : Message) (c : ConnectionManager)
    → IsRegistered conn ip m (register now ip default_port conn m c)
unfolding register add_peer get_peer
register-IsRegistered now ip default_port conn m c =
    let peer = peer_of_handshake ip default_port m in
    let id = Option.get_or m.node_id [] in
    record {
      connection = get-put_self c.connections id conn;
      peer = merged_peer now peer (Dict.get c.state.peers id);
      known = get-put_self c.state.peers id (merged_peer now peer (Dict.get c.state.peers id));
      address = merged_peer-ip now peer (Dict.get c.state.peers id);
    }

module _ (hmac : Bytes → Bytes → Str) (swarm_key : Str) where
  is_authorized_signature :
      (a : Message)
      → is_authorized hmac swarm_key a ≡ true
      → (Option.get_or a.type [] ≡ codes "AUTH")
        × (Option.get_or a.signature []
            ≡ hmac (encode swarm_key) (encode (Option.get_or a.node_id [])))
  unfolding is_authorized
  is_authorized_signature a good =
      let typed : str_eq (Option.get_or a.type []) (codes "AUTH") ≡ true = ground (arith, good) in
      let signed : str_eq (Option.get_or a.signature [])
            (hmac (encode swarm_key) (encode (Option.get_or a.node_id [])))
          ≡ true =
        ground (arith, good) in
      ((str_eq_iff _ _).0 typed, (str_eq_iff _ _).0 signed)

  -- An incoming connection is accepted only after an AUTH message whose signature is the one under
  -- the key of the swarm, and a HANDSHAKE; then it is registered under the id of the HANDSHAKE.
  -- Otherwise the node's state stays as it is.
  pub handle_client_lem :
      (now : ℕ) (ip : Str) (conn : ℕ) (auth handshake : Option Message) (c : ConnectionManager)
      → let (after, accepted) = handle_client hmac swarm_key now ip conn auth handshake c in
        ((accepted ≡ none) × (after.state ≡ c.state))
        ⊎ ((a : Message) × (m : Message) × (auth ≡ some a)
            × (handshake ≡ some m)
            × (Option.get_or a.type [] ≡ codes "AUTH")
            × (Option.get_or a.signature []
                ≡ hmac (encode swarm_key) (encode (Option.get_or a.node_id [])))
            × (Option.get_or m.type [] ≡ codes "HANDSHAKE")
            × (accepted ≡ some (Option.get_or m.node_id []))
            × IsRegistered conn ip m after)
  unfolding handle_client close_client
  handle_client_lem now ip conn none handshake c = inl (refl, refl)
  handle_client_lem now ip conn (some a) none c = inl (refl, refl)
  handle_client_lem now ip conn (some a) (some m) c =
      elim (Bool-cases (is_authorized hmac swarm_key a)) [
        | inr bad ↦ rw bad (inl (refl, refl))
        | inl good ↦ elim (Bool-cases (has_type (codes "HANDSHAKE") m)) [
          | inr other ↦ rw (good, other) (inl (refl, refl))
          | inl shakes ↦
              let signed = is_authorized_signature a good in
              rw (good, shakes)
                (inr (
                  a,
                  m,
                  refl,
                  refl,
                  signed.0,
                  signed.1,
                  (str_eq_iff _ _).0 shakes,
                  refl,
                  register-IsRegistered now ip 0 conn m c,
                ))
        ]
      ]

  greeting-is_authorized :
      (node_id : Str)
      → is_authorized hmac swarm_key (auth_handshake_msg hmac node_id swarm_key) ≡ true
  unfolding is_authorized auth_handshake_msg str_eq
  greeting-is_authorized node_id = rw (str_eq_refl (hmac (encode swarm_key) (encode node_id))) refl

  handshake-has_type :
      (type : Str) (api_port : ℕ) (s : NodeState)
      → has_type type (handshake_msg type api_port s) ≡ true
  unfolding handshake_msg
  handshake-has_type type api_port s = str_eq_refl type

  -- Two nodes with the same swarm key: when one connects to the other with its greetings, the other
  -- accepts it and answers, and the one takes the answer. Each is then registered with the other,
  -- under its own id, with its connection and the address it was seen at.
  pub handshake_completes :
      (now later conn back api_port back_port port : ℕ) (ip back_ip : Str)
      (client server : ConnectionManager)
      → let auth = auth_handshake_msg hmac client.state.node_id swarm_key in
        let hello = handshake_msg (codes "HANDSHAKE") api_port client.state in
        let ack = handshake_msg (codes "HANDSHAKE_ACK") back_port server.state in
        let (server_after, accepted) =
          handle_client hmac swarm_key now ip conn (some auth) (some hello) server in
        let (client_after, opened) = connect_to_peer later back_ip port back (some ack) client in
        (accepted ≡ some client.state.node_id)
        × (opened ≡ some back)
        × IsRegistered conn ip hello server_after
        × IsRegistered back back_ip ack client_after
  unfolding handle_client connect_to_peer handshake_msg
  handshake_completes now later conn back api_port back_port port ip back_ip client server =
      let hello = handshake_msg (codes "HANDSHAKE") api_port client.state in
      let ack = handshake_msg (codes "HANDSHAKE_ACK") back_port server.state in
      let good = greeting-is_authorized client.state.node_id in
      let shakes = handshake-has_type (codes "HANDSHAKE") api_port client.state in
      let acks = handshake-has_type (codes "HANDSHAKE_ACK") back_port server.state in
      rw (good, shakes, acks)
        (
          refl,
          refl,
          register-IsRegistered now ip 0 conn hello server,
          register-IsRegistered later back_ip port back ack client,
        )
