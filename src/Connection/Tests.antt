-- ===== src/Connection/Tests.antt =====
-- Frames and the handshake, run on small messages.
use distri_store.Prelude.{
  ◌≡◌, ◌⊎◌, refl, none, some, [], ◌∷◌, ◌++◌, Str, Bytes, codes, encode, arith,
}
use mathlib.Core.Option
use distri_store.Node.{NodeState}
use distri_store.Connection.{
  Msgpack, MsgpackLaws, send, receive_all, Message, auth_handshake_msg, handshake_msg,
  ConnectionManager, handle_client, connect_to_peer,
}
use distri_store.Connection.Framing.{receive_all-AllWritten}
use distri_store.Connection.Handshake.{IsRegistered, handle_client_lem, handshake_completes}

-- Messages that are their own bytes.
abbrev plain : Msgpack Bytes
plain = record { packb = λ b. b; unpackb = λ b. some b }

plain_laws : MsgpackLaws plain
plain_laws = record { unpacks = λ b. refl }

abbrev frame : Bytes
frame = 0 ∷ 0 ∷ 0 ∷ 2 ∷ 8 ∷ 9 ∷ []

sends_frame : send plain (8 ∷ 9 ∷ []) ≡ some frame
unfolding send
sends_frame = refl

receive_all-AllWritten_example :
    receive_all plain (frame ++ frame) ≡ (8 ∷ 9 ∷ []) ∷ (8 ∷ 9 ∷ []) ∷ []
receive_all-AllWritten_example =
    receive_all-AllWritten plain plain_laws ((8 ∷ 9 ∷ []) ∷ (8 ∷ 9 ∷ []) ∷ []) (frame ++ frame) (
      frame,
      frame,
      sends_frame,
      omega arith,
      refl,
      (frame, [], sends_frame, omega arith, refl, refl),
    )

abbrev node : Str → NodeState
node id = record {
  node_id = id;
  name = codes "n";
  tcp_port = 50001;
  start_time = 0;
  peers = [];
  chunks = [];
  routing = [];
  db = none;
}

abbrev manager : Str → ConnectionManager
manager id = record { state = node id; connections = [] }

abbrev hmac : Bytes → Bytes → Str
hmac key text = key ++ text

abbrev hello : Message
hello = handshake_msg (codes "HANDSHAKE") 8888 (node (codes "a"))

handle_client_lem_example :
    let (after, accepted) =
      handle_client hmac
        (codes "key")
        5
        (codes "10.0.0.2")
        1
        (some (auth_handshake_msg hmac (codes "a") (codes "other")))
        (some hello)
        (manager (codes "b")) in
    ((accepted ≡ none) × (after.state ≡ node (codes "b")))
    ⊎ ((a : Message) × (m : Message) × (some (auth_handshake_msg hmac (codes "a") (codes "other"))
          ≡ some a)
        × (some hello ≡ some m)
        × (Option.get_or a.type [] ≡ codes "AUTH")
        × (Option.get_or a.signature []
            ≡ hmac (encode (codes "key")) (encode (Option.get_or a.node_id [])))
        × (Option.get_or m.type [] ≡ codes "HANDSHAKE")
        × (accepted ≡ some (Option.get_or m.node_id []))
        × IsRegistered 1 (codes "10.0.0.2") m after)
handle_client_lem_example =
    handle_client_lem hmac (codes "key") 5 (codes "10.0.0.2") 1
      (some (auth_handshake_msg hmac (codes "a") (codes "other"))) (some hello)
      (manager (codes "b"))

handshake_completes_example :
    let auth = auth_handshake_msg hmac (codes "a") (codes "key") in
    let ack = handshake_msg (codes "HANDSHAKE_ACK") 8888 (node (codes "b")) in
    let (server_after, accepted) =
      handle_client hmac
        (codes "key")
        5
        (codes "10.0.0.2")
        1
        (some auth)
        (some hello)
        (manager (codes "b")) in
    let (client_after, opened) =
      connect_to_peer 6 (codes "10.0.0.3") 50001 2 (some ack) (manager (codes "a")) in
    (accepted ≡ some (codes "a"))
    × (opened ≡ some 2)
    × IsRegistered 1 (codes "10.0.0.2") hello server_after
    × IsRegistered 2 (codes "10.0.0.3") ack client_after
handshake_completes_example =
    handshake_completes hmac (codes "key") 5 6 1 2 8888 8888 50001 (codes "10.0.0.2")
      (codes "10.0.0.3") (manager (codes "a")) (manager (codes "b"))
