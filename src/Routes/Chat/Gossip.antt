-- ===== src/Routes/Chat/Gossip.antt =====
-- The set of seen ids, and that no message goes round in circles.
use distri_store.Prelude.{
  ℕ, ◌+◌, ◌≤◌, ◌<◌, ◌≡◌, ◌⊎◌, refl, sym, ap, ◌∙◌, Bool, true, false, ◌||◌, inl, inr, List, [], ◌∷◌,
  ◌++◌, Str, str_eq, str_eq_iff, length, length-append, ltb, Bool-cases, arith, if◌then◌else◌,
}
use distri_store.Manifest.{is_empty}
use distri_store.Dht.{str_elem, str_remove}
use distri_store.Prelude.Distinct.{occurrences}
use distri_store.Replication.Targets.{occurrences-append}
use distri_store.Routes.Chat.{
  max_seen, Chat, Sent, track, strip, websocket_chat, handle_tcp_chat, broadcast, connect,
  disconnect, ChatEvent, opened, closed, typed, heard, chat_step, chat_run,
}

-- What holds in both branches holds of the conditional.
if_rule {ℓ κ} :
    {A : Type ℓ} (P : A → Type κ) (b : Bool) (x y : A)
    → (b ≡ true → P x)
    → (b ≡ false → P y)
    → P (if b then x else y)
if_rule P true x y p q = p refl
if_rule P false x y p q = q refl

length-str_remove :
    (i : Str) (l : List Str) → str_elem i l ≡ true → length (str_remove i l) + 1 ≡ length l
unfolding str_elem str_remove
length-str_remove i [] h = ground arith
length-str_remove i (j ∷ l) h = ground (arith, length-str_remove i l)

module _ (pick : List Str → Str) where
  -- `set.pop` takes an element of the set.
  abbrev pub Picks : Type 0
  Picks = (l : List Str) → 0 < length l → str_elem (pick l) l ≡ true

  length-track :
      Picks
      → (msg_id : Str) (seen : List Str) → length seen ≤ max_seen
      → length (track pick msg_id seen) ≤ max_seen
  unfolding track
  length-track picks msg_id seen h = elim (Bool-cases (str_elem msg_id seen)) [
    | inl there ↦
        let small : ltb max_seen (length seen) ≡ false = ground (arith, h) in
        rw (track, there, small) h
    | inr new ↦
        let added = seen ++ msg_id ∷ [] in
        let size = length-append seen (msg_id ∷ []) in
        elim (Bool-cases (ltb max_seen (length added))) [
          | inr fits ↦ rw (track, new, fits) (ground (arith, fits))
          | inl over ↦
              let removed =
                length-str_remove (pick added) added (picks added (omega (arith, size))) in
              rw (track, new, over) (omega (arith, removed, size))
        ]
  ]

  abbrev with_id : Str → List Str → List Str
  with_id msg_id seen = if str_elem msg_id seen then seen else seen ++ msg_id ∷ []

  length-with_id : (msg_id : Str) (seen : List Str) → length (with_id msg_id seen) ≤ length seen + 1
  length-with_id msg_id seen = elim (Bool-cases (str_elem msg_id seen)) [
    | inl there ↦ rw (with_id, there) (omega arith)
    | inr new ↦ rw (with_id, new) (omega (arith, length-append seen (msg_id ∷ [])))
  ]

  str_elem-append_one :
      (i j : Str) (l : List Str) → str_elem i (l ++ j ∷ []) ≡ (str_elem i l || str_eq j i)
  unfolding str_elem
  str_elem-append_one i j [] = ground arith
  str_elem-append_one i j (k ∷ l) = ground (arith, str_elem-append_one i j l)

  str_elem-with_id :
      (msg_id : Str) (seen : List Str) (i : Str)
      → str_elem i (with_id msg_id seen) ≡ (str_elem i seen || str_eq msg_id i)
  str_elem-with_id msg_id seen i = elim (Bool-cases (str_elem msg_id seen)) [
    | inr new ↦ rw (with_id, new) (str_elem-append_one i msg_id seen)
    | inl there ↦ elim (Bool-cases (str_eq msg_id i)) [
      | inr other ↦ rw (with_id, there, other) (ground arith)
      | inl same ↦
          let found : str_elem i seen ≡ true =
            ap (λ k. str_elem k seen) (sym ((str_eq_iff msg_id i).0 same)) ∙ there in
          rw (with_id, there, same, found) refl
    ]
  ]

  -- With room in the set nothing is given up.
  track-room :
      (msg_id : Str) (seen : List Str)
      → length seen < max_seen
      → track pick msg_id seen ≡ with_id msg_id seen
  unfolding track
  track-room msg_id seen h =
      let room : ltb max_seen (length (with_id msg_id seen)) ≡ false =
        ground (arith, length-with_id msg_id seen) in
      rw (track, room) refl

  -- The id is of a message that is not typed on this node.
  abbrev pub NotTyped : Str → List ChatEvent → Type 0
  NotTyped i [] = Unit
  NotTyped i (typed msg_id text ∷ events) = (str_eq msg_id i ≡ false) × NotTyped i events
  NotTyped i (e ∷ events) = NotTyped i events

  abbrev seen_bit : Str → Chat → ℕ
  seen_bit i c = if str_elem i c.seen_chat_ids then 1 else 0

  module _ (alive : ℕ → Bool) where
    record StepOk (i : Str) (c : Chat) (next : Chat) (sent : Sent) : Type 0 where
      once : occurrences i sent.to_peers + seen_bit i c ≤ seen_bit i next
      grows : length next.seen_chat_ids ≤ length c.seen_chat_ids + 1

    quiet :
        (i : Str) (c next : Chat)
        → next.seen_chat_ids ≡ c.seen_chat_ids
        → StepOk i c next (record { to_sockets = []; to_peers = [] })
    unfolding occurrences
    quiet i c next e = record { once = rw e (omega arith); grows = rw e (omega arith) }

    tracked-StepOk :
        (i msg_id : Str) (c next : Chat) (got : List ℕ)
        → length c.seen_chat_ids < max_seen
        → next.seen_chat_ids ≡ track pick msg_id c.seen_chat_ids
        → (str_eq msg_id i ≡ false) ⊎ (str_elem msg_id c.seen_chat_ids ≡ false)
        → StepOk i c next (record { to_sockets = got; to_peers = msg_id ∷ [] })
    unfolding occurrences
    tracked-StepOk i msg_id c next got room e new =
        let after = e ∙ track-room msg_id c.seen_chat_ids room in
        let bit : str_elem i next.seen_chat_ids ≡ (str_elem i c.seen_chat_ids || str_eq msg_id i) =
          ap (str_elem i) after ∙ str_elem-with_id msg_id c.seen_chat_ids i in
        record {
          once = elim (Bool-cases (str_eq msg_id i)) [
            | inr other ↦ rw (bit, other) (ground arith)
            | inl same ↦
                let unseen : str_elem i c.seen_chat_ids ≡ false = elim new [
                  | inl other ↦ absurd (cc (sym same ∙ other))
                  | inr fresh ↦
                      ap (λ k. str_elem k c.seen_chat_ids) (sym ((str_eq_iff msg_id i).0 same))
                      ∙ fresh
                ] in
                rw (bit, same, unseen) (omega arith)
          ];
          grows = rw after (length-with_id msg_id c.seen_chat_ids);
        }

    step-StepOk :
        (i : Str) (e : ChatEvent) (c : Chat)
        → NotTyped i (e ∷ [])
        → length c.seen_chat_ids < max_seen
        → let (next, sent) = chat_step pick alive e c in StepOk i c next sent
    unfolding chat_step handle_tcp_chat websocket_chat broadcast connect disconnect
    step-StepOk i (opened ws) c n room = quiet i c _ refl
    step-StepOk i (closed ws) c n room = quiet i c _ refl
    step-StepOk i (heard msg_id) c n room =
        if_rule (λ (r : Chat × Sent). StepOk i c r.0 r.1) (str_elem msg_id c.seen_chat_ids) _ _
          (λ there. quiet i c c refl) (λ new. tracked-StepOk i msg_id c _ _ room refl (inr new))
    step-StepOk i (typed msg_id text) c n room = elim (Bool-cases (is_empty (strip text))) [
      | inl blank ↦ rw blank (quiet i c c refl)
      | inr text_given ↦ rw text_given (tracked-StepOk i msg_id c _ _ room refl (inl n.0))
    ]

    NotTyped-first :
        (i : Str) (e : ChatEvent) (events : List ChatEvent)
        → NotTyped i (e ∷ events)
        → NotTyped i (e ∷ []) × NotTyped i events
    NotTyped-first i (opened ws) events n = (tt, n)
    NotTyped-first i (closed ws) events n = (tt, n)
    NotTyped-first i (heard m) events n = (tt, n)
    NotTyped-first i (typed m text) events n = ((n.0, tt), n.1)

    run-once :
        (i : Str) (events : List ChatEvent) (c : Chat)
        → NotTyped i events
        → length c.seen_chat_ids + length events ≤ max_seen
        → occurrences i (chat_run pick alive events c).1 + seen_bit i c ≤ 1
    unfolding chat_run occurrences
    run-once i [] c n room = ground arith
    run-once i (e ∷ events) c n room =
        let (now, later) = NotTyped-first i e events n in
        let ok = step-StepOk i e c now (omega arith) in
        let next = (chat_step pick alive e c).0 in
        let out = (chat_step pick alive e c).1.to_peers in
        let more = run-once i events next later (omega (arith, ok.grows)) in
        omega (arith, occurrences-append i out (chat_run pick alive events next).1, ok.once, more)

-- While the set has room for all events: of the messages that other nodes send, each is passed on to
-- the TCP peers at most once, however often it comes back, and not at all if it was seen before.
pub chat_run_once :
    (pick : List Str → Str) (alive : ℕ → Bool) (i : Str) (events : List ChatEvent) (c : Chat)
    → NotTyped pick i events
    → length c.seen_chat_ids + length events ≤ max_seen
    → occurrences i (chat_run pick alive events c).1 + (if str_elem i c.seen_chat_ids then 1 else 0)
      ≤ 1
chat_run_once pick alive i events c n room = run-once pick alive i events c n room

step-bounded :
    (pick : List Str → Str) (alive : ℕ → Bool) (e : ChatEvent) (c : Chat)
    → Picks pick
    → length c.seen_chat_ids ≤ max_seen
    → length (chat_step pick alive e c).0.seen_chat_ids ≤ max_seen
unfolding chat_step handle_tcp_chat websocket_chat broadcast connect disconnect
step-bounded pick alive (opened ws) c picks h = h
step-bounded pick alive (closed ws) c picks h = h
step-bounded pick alive (heard msg_id) c picks h =
    if_rule (λ (r : Chat × Sent). length r.0.seen_chat_ids ≤ max_seen)
      (str_elem msg_id c.seen_chat_ids) _ _ (λ there. h)
      (λ new. length-track pick picks msg_id c.seen_chat_ids h)
step-bounded pick alive (typed msg_id text) c picks h = elim (Bool-cases (is_empty (strip text))) [
  | inl blank ↦ rw blank h
  | inr given ↦ rw given (length-track pick picks msg_id c.seen_chat_ids h)
]

-- However many events there are: the set never has more than 500 ids.
pub chat_run_bounded :
    (pick : List Str → Str) (alive : ℕ → Bool) (events : List ChatEvent) (c : Chat)
    → Picks pick
    → length c.seen_chat_ids ≤ max_seen
    → length (chat_run pick alive events c).0.seen_chat_ids ≤ max_seen
unfolding chat_run
chat_run_bounded pick alive [] c picks h = h
chat_run_bounded pick alive (e ∷ events) c picks h =
    chat_run_bounded pick alive events (chat_step pick alive e c).0 picks
      (step-bounded pick alive e c picks h)
