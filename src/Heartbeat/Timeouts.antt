-- ===== src/Heartbeat/Timeouts.antt =====
-- Which peers the heartbeat gives up.
use mathlib.Core.Path.{subst}
use mathlib.Core.Option.{some-injective}
use distri_store.Prelude.{
  ℕ, ◌+◌, ◌≤◌, ◌≡◌, ◌⊎◌, refl, sym, ap, ◌∙◌, Bool, true, false, none, some, inl, inr, List, [], ◌∷◌,
  Str, str_eq, str_eq_iff, ltb, Bool-cases, arith, if◌then◌else◌,
}
use distri_store.Prelude.Dict
use distri_store.Prelude.Dict.{Dict, IsDistinct, get-put, get-remove, put-IsDistinct}
use distri_store.Node.{PeerInfo, NodeState, get_peer, get_all_peers_of, remove_peer}
use distri_store.Dht.{str_elem}
use distri_store.Heartbeat.{
  HeartbeatMonitor, ping_each, ping_all_peers, split_pending, remove_each, check_timeouts, Turn,
  handle_pongs, heartbeat_turn, turns,
}

get-ping_each :
    (reach : Str → Bool) (now : Str → ℕ) (l : List Str) (pending : Dict ℕ) (k : Str)
    → reach k ≡ true
    → Dict.get (ping_each reach now l pending) k
      ≡ (if str_elem k l then some (now k) else Dict.get pending k)
unfolding ping_each str_elem
get-ping_each reach now [] pending k r = refl
get-ping_each reach now (i ∷ l) pending k r = elim (Bool-cases (reach i)) [
  | inl e ↦ rw e (
      get-ping_each reach now l (Dict.put pending i (now i)) k r ∙ elim (Bool-cases (str_eq i k)) [
        | inl same ↦
            let at_k : now i ≡ now k = ap now ((str_eq_iff i k).0 same) in
            ground (arith, same, at_k, get-put pending i (now i) k)
        | inr other ↦ ground (arith, other, get-put pending i (now i) k)
      ])
  | inr e ↦
      let other : str_eq i k ≡ false = elim (Bool-cases (str_eq i k)) [
        | inr other ↦ other
        | inl same ↦ absurd (cc (sym e ∙ (ap reach ((str_eq_iff i k).0 same) ∙ r)))
      ] in
      rw e (get-ping_each reach now l pending k r ∙ ground (arith, other))
]

ping_each-IsDistinct :
    (reach : Str → Bool) (now : Str → ℕ) (l : List Str) (pending : Dict ℕ)
    → IsDistinct pending
    → IsDistinct (ping_each reach now l pending)
unfolding ping_each
ping_each-IsDistinct reach now [] pending d = d
ping_each-IsDistinct reach now (i ∷ l) pending d = elim (Bool-cases (reach i)) [
  | inl e ↦ rw e (ping_each-IsDistinct reach now l _ (put-IsDistinct pending i (now i) d))
  | inr e ↦ rw e (ping_each-IsDistinct reach now l pending d)
]

split_absent :
    (timeout now : ℕ) (pending : Dict ℕ) (k : Str)
    → Dict.get pending k ≡ none
    → (Dict.get (split_pending timeout now pending).0 k ≡ none)
      × (str_elem k (split_pending timeout now pending).1 ≡ false)
unfolding split_pending Dict.get str_elem
split_absent timeout now [] k e = (refl, refl)
split_absent timeout now ((i, t) ∷ pending) k e = ground (arith, split_absent timeout now pending k)

-- A pending ping is given up exactly when more than the timeout has passed since it was sent.
split_found :
    (timeout now : ℕ) (pending : Dict ℕ) (k : Str) (t : ℕ)
    → IsDistinct pending
    → Dict.get pending k ≡ some t
    → str_elem k (split_pending timeout now pending).1 ≡ ltb (t + timeout) now
unfolding split_pending Dict.get str_elem
split_found timeout now [] k t d e = absurd (cc e)
split_found timeout now ((i, u) ∷ pending) k t d e = elim (Bool-cases (str_eq i k)) [
  | inl same ↦
      let eq : u ≡ t = some-injective _ _ (rw same at e) in
      let gone : Dict.get pending k ≡ none =
        subst (λ j. Dict.get pending j ≡ none) ((str_eq_iff i k).0 same) d.0 in
      ground (arith, same, eq, split_absent timeout now pending k gone)
  | inr other ↦
      let later = split_found timeout now pending k t d.1 (rw other at e) in
      ground (arith, other, later)
]

split_pending-IsDistinct :
    (timeout now : ℕ) (pending : Dict ℕ)
    → IsDistinct pending
    → IsDistinct (split_pending timeout now pending).0
unfolding split_pending
split_pending-IsDistinct timeout now [] d = tt
split_pending-IsDistinct timeout now ((i, t) ∷ pending) d =
    elim (Bool-cases (ltb (t + timeout) now)) [
      | inl e ↦ rw e (split_pending-IsDistinct timeout now pending d.1)
      | inr e ↦ rw e (
        (split_absent timeout now pending i d.0).0,
        split_pending-IsDistinct timeout now pending d.1,
      )
    ]

get_peer-remove_each :
    (dead : List Str) (s : NodeState) (k : Str)
    → get_peer k (remove_each dead s) ≡ (if str_elem k dead then none else get_peer k s)
unfolding remove_each get_peer remove_peer str_elem
get_peer-remove_each [] s k = refl
get_peer-remove_each (i ∷ dead) s k =
    get_peer-remove_each dead (remove_peer i s).0 k ∙ ground (arith, get-remove s.peers i k)

ping_each-unreached :
    (reach : Str → Bool) (now : Str → ℕ) (l : List Str) (pending : Dict ℕ) (k : Str)
    → reach k ≡ false
    → Dict.get (ping_each reach now l pending) k ≡ Dict.get pending k
unfolding ping_each
ping_each-unreached reach now [] pending k r = refl
ping_each-unreached reach now (i ∷ l) pending k r = elim (Bool-cases (reach i)) [
  | inr e ↦ rw e (ping_each-unreached reach now l pending k r)
  | inl e ↦
      let other : str_eq i k ≡ false = elim (Bool-cases (str_eq i k)) [
        | inr other ↦ other
        | inl same ↦ absurd (cc (sym e ∙ (ap reach ((str_eq_iff i k).0 same) ∙ r)))
      ] in
      rw e (
        ping_each-unreached reach now l (Dict.put pending i (now i)) k r
        ∙ ground (arith, get-put pending i (now i) k, other))
]

known-key :
    (d : Dict PeerInfo) (k : Str) (peer : PeerInfo)
    → Dict.get d k ≡ some peer
    → str_elem k (Dict.keys d) ≡ true
unfolding Dict.get str_elem
known-key [] k peer e = absurd (cc e)
known-key ((i, p) ∷ d) k peer e = elim (Bool-cases (str_eq i k)) [
  | inl same ↦ ground (arith, same)
  | inr other ↦ ground (arith, other, known-key d k peer (rw other at e))
]

-- The time of the last ping of a known peer when a turn looks at its time-outs.
pinged :
    (reach : Str → Bool) (now : Str → ℕ) (t : ℕ) (h : HeartbeatMonitor) (k : Str) (peer : PeerInfo)
    → get_peer k h.node ≡ some peer
    → (reach k ≡ true) ⊎ (Dict.get h.pending_pings k ≡ some t)
    → Dict.get (ping_all_peers reach now h).pending_pings k ≡ some (if reach k then now k else t)
unfolding ping_all_peers get_all_peers_of get_peer
pinged reach now t h k peer known before = elim (Bool-cases (reach k)) [
  | inl r ↦
      get-ping_each reach now (Dict.keys h.node.peers) h.pending_pings k r
      ∙ rw (known-key h.node.peers k peer known, r) refl
  | inr r ↦ elim before [
    | inl reached ↦ absurd (cc (sym r ∙ reached))
    | inr waiting ↦
        ping_each-unreached reach now (Dict.keys h.node.peers) h.pending_pings k r
        ∙ (waiting ∙ rw r refl)
  ]
]

-- For pending pings without double keys, a known peer that is reached or has a ping pending, and a
-- turn in which no pong arrives: the turn gives the peer up exactly if, when the time-outs are looked
-- at, more than the time-out has passed since the ping of this turn, when it is reached, or else
-- since the ping that was pending.
pub heartbeat_turn_lem :
    (timeout t : ℕ) (turn : Turn) (h : HeartbeatMonitor) (k : Str) (peer : PeerInfo)
    → turn.pongs ≡ []
    → IsDistinct h.pending_pings
    → get_peer k h.node ≡ some peer
    → (turn.reach k ≡ true) ⊎ (Dict.get h.pending_pings k ≡ some t)
    → get_peer k (heartbeat_turn timeout turn h).node ≡ (
        if ltb ((if turn.reach k then turn.now k else t) + timeout) turn.later
        then none
        else some peer)
unfolding heartbeat_turn check_timeouts ping_all_peers handle_pongs
heartbeat_turn_lem timeout t turn h k peer silent d known before =
    let reach = turn.reach in
    let now = turn.now in
    let pending = (ping_all_peers reach now h).pending_pings in
    let distinct =
      ping_each-IsDistinct reach now (Dict.keys (get_all_peers_of h.node)) h.pending_pings d in
    let (left, dead) = split_pending timeout turn.later pending in
    let late =
      split_found timeout turn.later pending k (if reach k then now k else t) distinct
        (pinged reach now t h k peer known before) in
    rw silent (get_peer-remove_each dead h.node k ∙ rw (late, known) refl)

turn-IsDistinct :
    (timeout : ℕ) (turn : Turn) (h : HeartbeatMonitor)
    → turn.pongs ≡ []
    → IsDistinct h.pending_pings
    → IsDistinct (heartbeat_turn timeout turn h).pending_pings
unfolding heartbeat_turn check_timeouts ping_all_peers handle_pongs
turn-IsDistinct timeout turn h silent d = rw silent (
    split_pending-IsDistinct timeout turn.later _ (
      ping_each-IsDistinct turn.reach turn.now (Dict.keys (get_all_peers_of h.node)) h.pending_pings
        d))

-- A ping to the peer can be sent in every turn, no pong arrives, and the time-outs are looked at
-- before the time-out of the ping to it has passed.
abbrev pub AllReach : ℕ → Str → List Turn → Type 0
AllReach timeout k [] = Unit
AllReach timeout k (t ∷ ts) =
    ((t.reach k ≡ true) × (t.pongs ≡ []) × (t.later ≤ t.now k + timeout)) × AllReach timeout k ts

-- For pending pings without double keys: a known peer to which a ping can be sent in every turn is
-- never given up, however many turns pass without any pong, as long as no turn takes longer than the
-- time-out from its ping to this peer to its look at the time-outs.
pub turns_never_give_up :
    (timeout : ℕ) (ts : List Turn) (h : HeartbeatMonitor) (k : Str) (peer : PeerInfo)
    → IsDistinct h.pending_pings
    → get_peer k h.node ≡ some peer
    → AllReach timeout k ts
    → get_peer k (turns timeout ts h).node ≡ some peer
unfolding turns
turns_never_give_up timeout [] h k peer d known all = known
turns_never_give_up timeout (t ∷ ts) h k peer d known all =
    let (reached, silent, soon) = all.0 in
    turns_never_give_up timeout ts (heartbeat_turn timeout t h) k peer
      (turn-IsDistinct timeout t h silent d)
      (heartbeat_turn_lem timeout (t.now k) t h k peer silent d known (inl reached)
        ∙ rw reached (ground (arith, soon)))
      all.1
