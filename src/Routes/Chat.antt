-- ===== src/Routes/Chat.antt =====
-- The chat of backend/api/routes.py: ChatManager, websocket_chat and handle_tcp_chat. A socket is a
-- number, and `alive` says to which a payload can be sent. `set.pop` takes any element: `pick` is
-- its choice. The ids of new messages are arguments.
pub mod Gossip
use mathlib.Core.List.{reverse}
use distri_store.Prelude.{
  ℕ, ◌+◌, Bool, true, false, ◌&&◌, ◌||◌, List, [], ◌∷◌, ◌++◌, Str, length, ltb, leb, ◌==◌,
  if◌then◌else◌,
}
use distri_store.Prelude.Count.{remove_first}
use distri_store.Manifest.{is_empty}
use distri_store.Dht.{str_elem, str_remove}

abbrev pub max_seen : ℕ
max_seen = 500

pub record Chat : Type 0 where
  pub active_connections : List ℕ
  pub seen_chat_ids : List Str

-- What an event sends: the sockets that get the payload, and the ids that go to the TCP peers.
pub record Sent : Type 0 where
  pub to_sockets : List ℕ
  pub to_peers : List Str

unfoldable pub connect : ℕ → Chat → Chat
connect ws c = record c { active_connections = c.active_connections ++ ws ∷ [] }

-- `disconnect`, whose `ValueError` for an unknown socket its callers drop.
unfoldable pub disconnect : ℕ → Chat → Chat
disconnect ws c = record c { active_connections = remove_first ws c.active_connections }

unfoldable pub split_alive : (ℕ → Bool) → List ℕ → List ℕ × List ℕ
split_alive alive [] = ([], [])
split_alive alive (ws ∷ l) =
    let (got, dead) = split_alive alive l in if alive ws then (ws ∷ got, dead) else (got, ws ∷ dead)

unfoldable pub remove_all : List ℕ → List ℕ → List ℕ
remove_all [] l = l
remove_all (ws ∷ dead) l = remove_all dead (remove_first ws l)

-- The sockets that get the payload; those that fail are dropped.
unfoldable pub broadcast : (ℕ → Bool) → Chat → Chat × List ℕ
unfolding split_alive remove_all
broadcast alive c =
    let (got, dead) = split_alive alive c.active_connections in
    (record c { active_connections = remove_all dead c.active_connections }, got)

-- The id is added to the set, which then gives one up if it is too large.
unfoldable pub track : (List Str → Str) → Str → List Str → List Str
track pick msg_id seen =
    let added = if str_elem msg_id seen then seen else seen ++ msg_id ∷ [] in
    if ltb max_seen (length added) then str_remove (pick added) added else added

-- The characters that `str.strip` takes from both ends.
abbrev pub is_space : ℕ → Bool
is_space c =
    leb 9 c && leb c 13
    || leb 28 c && leb c 32
    || c == 133
    || c == 160
    || c == 5760
    || leb 8192 c && leb c 8202
    || c == 8232
    || c == 8233
    || c == 8239
    || c == 8287
    || c == 12288

unfoldable pub lstrip : Str → Str
lstrip [] = []
lstrip (c ∷ s) = let rest = lstrip s in if is_space c then rest else c ∷ s

unfoldable pub strip : Str → Str
unfolding lstrip
strip s = reverse (lstrip (reverse (lstrip s)))

-- A text from a local socket; an empty one is passed over.
unfoldable pub websocket_chat : (List Str → Str) → (ℕ → Bool) → Str → Str → Chat → Chat × Sent
unfolding strip track broadcast
websocket_chat pick alive msg_id text c =
    let tracked = record c { seen_chat_ids = track pick msg_id c.seen_chat_ids } in
    let (after, got) = broadcast alive tracked in
    if is_empty (strip text)
    then (c, record { to_sockets = []; to_peers = [] })
    else (after, record { to_sockets = got; to_peers = msg_id ∷ [] })

-- A message from a TCP peer; one that was seen is dropped, and another is passed on to all peers.
unfoldable pub handle_tcp_chat : (List Str → Str) → (ℕ → Bool) → Str → Chat → Chat × Sent
unfolding track broadcast
handle_tcp_chat pick alive msg_id c =
    let tracked = record c { seen_chat_ids = track pick msg_id c.seen_chat_ids } in
    let (after, got) = broadcast alive tracked in
    if str_elem msg_id c.seen_chat_ids
    then (c, record { to_sockets = []; to_peers = [] })
    else (after, record { to_sockets = got; to_peers = msg_id ∷ [] })

pub data ChatEvent : Type 0 where
  opened : ℕ → ChatEvent
  closed : ℕ → ChatEvent
  typed : Str → Str → ChatEvent
  heard : Str → ChatEvent

unfoldable pub chat_step : (List Str → Str) → (ℕ → Bool) → ChatEvent → Chat → Chat × Sent
unfolding connect disconnect websocket_chat handle_tcp_chat
chat_step pick alive (opened ws) c = (connect ws c, record { to_sockets = []; to_peers = [] })
chat_step pick alive (closed ws) c = (disconnect ws c, record { to_sockets = []; to_peers = [] })
chat_step pick alive (typed msg_id text) c = websocket_chat pick alive msg_id text c
chat_step pick alive (heard msg_id) c = handle_tcp_chat pick alive msg_id c

-- The ids that go to the peers in a sequence of events, in order.
unfoldable pub chat_run : (List Str → Str) → (ℕ → Bool) → List ChatEvent → Chat → Chat × List Str
unfolding chat_step
chat_run pick alive [] c = (c, [])
chat_run pick alive (e ∷ events) c =
    let (next, sent) = chat_step pick alive e c in
    let (after, later) = chat_run pick alive events next in (after, sent.to_peers ++ later)
