-- ===== src/Window/Delivery.antt =====
-- A sender is finished by the acknowledgements of all its chunks.
use distri_store.Prelude.{
  ℕ, ◌≤◌, ◌<◌, ◌≡◌, refl, ap, ◌∙◌, ◌⊎◌, true, false, ◌||◌, List, [], ◌∷◌, length, ◌==◌, inl, inr,
  Bool-cases, arith,
}
use distri_store.Prelude.Count.{elem, le-length_of_elem}
use distri_store.Window.{
  AckIndex, pos, negsuc, same_index, Sender, member, add, slide, handle_ack, sweep, Event,
  acknowledged, other_message, connection_lost, swept, react, run,
}
use distri_store.Window.Bounds.{slide_idle, run_active}

-- The events hold an acknowledgement of the index.
abbrev pub Acknowledges : ℕ → List Event → Type 0
Acknowledges i [] = ⊥
Acknowledges i (acknowledged (pos j) ∷ events) = (j ≡ i) ⊎ Acknowledges i events
Acknowledges i (e ∷ events) = Acknowledges i events

-- The acknowledged indices that are natural numbers.
abbrev naturals : List AckIndex → List ℕ
naturals [] = []
naturals (pos i ∷ l) = i ∷ naturals l
naturals (negsuc i ∷ l) = naturals l

length-naturals : (l : List AckIndex) → length (naturals l) ≤ length l
length-naturals [] = omega arith
length-naturals (pos i ∷ l) = omega (arith, length-naturals l)
length-naturals (negsuc i ∷ l) = omega (arith, length-naturals l)

-- While the sender is not done, fewer indices are acknowledged than there are chunks.
record IsShort (s : Sender) : Type 0 where
  short : s.done ≡ false → length s.acked < s.total

react-IsShort : (e : Event) (s : Sender) → IsShort s → IsShort (react e s)
unfolding react handle_ack sweep
react-IsShort (acknowledged i) s h = record { short = rw slide_idle (λ e. ground arith) }
react-IsShort other_message s h = h
react-IsShort connection_lost s h = record { short = λ e. absurd (cc) }
react-IsShort (swept now) s h = record { short = h.short }

total-react : (e : Event) (s : Sender) → (react e s).total ≡ s.total
unfolding react handle_ack slide sweep
total-react (acknowledged i) s = ground arith
total-react other_message s = refl
total-react connection_lost s = refl
total-react (swept now) s = refl

elem-naturals : (i : ℕ) (l : List AckIndex) → elem i (naturals l) ≡ member (pos i) l
unfolding elem member same_index
elem-naturals i [] = refl
elem-naturals i (pos j ∷ l) = ap (λ b. j == i || b) (elem-naturals i l)
elem-naturals i (negsuc j ∷ l) = elem-naturals i l

member-add_stays :
    (i j : AckIndex) (l : List AckIndex) → member i l ≡ true → member i (add j l) ≡ true
unfolding add member
member-add_stays i j l h = ground arith

member-add_self : (i : ℕ) (l : List AckIndex) → member (pos i) (add (pos i) l) ≡ true
unfolding add member same_index
member-add_self i l = ground arith

pub acked-handle_ack : (i : AckIndex) (s : Sender) → (handle_ack i s).acked ≡ add i s.acked
unfolding handle_ack slide
acked-handle_ack i s = ground arith

react_keeps :
    (i : ℕ) (e : Event) (s : Sender)
    → member (pos i) s.acked ≡ true
    → member (pos i) (react e s).acked ≡ true
unfolding react sweep
react_keeps i (acknowledged j) s h = rw acked-handle_ack (member-add_stays (pos i) j s.acked h)
react_keeps i other_message s h = h
react_keeps i connection_lost s h = h
react_keeps i (swept now) s h = h

pub run_done : (events : List Event) (s : Sender) → s.done ≡ true → run events s ≡ s
unfolding run
run_done [] s h = refl
run_done (e ∷ events) s h = simp h (run_done events s h)

run_keeps :
    (i : ℕ) (events : List Event) (s : Sender)
    → member (pos i) s.acked ≡ true
    → member (pos i) (run events s).acked ≡ true
run_keeps i [] s h = unfold run in h
run_keeps i (e ∷ events) s h = elim (Bool-cases s.done) [
  | inl over ↦ rw (run_done (e ∷ events) s over) h
  | inr more ↦
      rw (run_active e events s more) (run_keeps i events (react e s) (react_keeps i e s h))
]

-- The sender is done, or the index counts as acknowledged.
abbrev Counted : ℕ → Sender → Type 0
Counted i s = (s.done ≡ true) ⊎ (member (pos i) s.acked ≡ true)

first_ack :
    (i : ℕ) (e : Event) (events : List Event) (s : Sender)
    → (Acknowledges i events → Counted i (run events (react e s)))
    → Acknowledges i (e ∷ events)
    → Counted i (run events (react e s))
first_ack i (acknowledged (pos j)) events s later (inl same) =
    let now : member (pos i) (react (acknowledged (pos j)) s).acked ≡ true =
      unfold react in rw (acked-handle_ack, same) (member-add_self i s.acked) in
    inr (run_keeps i events _ now)
first_ack i (acknowledged (pos j)) events s later (inr h) = later h
first_ack i (acknowledged (negsuc j)) events s later h = later h
first_ack i other_message events s later h = later h
first_ack i connection_lost events s later h = later h
first_ack i (swept now) events s later h = later h

-- An index that is acknowledged counts as such at the end, unless the sender was done before.
run_acks :
    (i : ℕ) (events : List Event) (s : Sender) → Acknowledges i events → Counted i (run events s)
run_acks i [] s h = absurd h
run_acks i (e ∷ events) s h = elim (Bool-cases s.done) [
  | inl over ↦ inl (rw (run_done (e ∷ events) s over) over)
  | inr more ↦
      rw (run_active e events s more) (first_ack i e events s (run_acks i events (react e s)) h)
]

run-IsShort :
    (events : List Event) (s : Sender)
    → IsShort s
    → IsShort (run events s) × ((run events s).total ≡ s.total)
run-IsShort [] s h = unfold run in (h, refl)
run-IsShort (e ∷ events) s h = elim (Bool-cases s.done) [
  | inl over ↦ rw (run_done (e ∷ events) s over) (h, refl)
  | inr more ↦
      let (short, total) = run-IsShort events (react e s) (react-IsShort e s h) in
      rw (run_active e events s more) (short, total ∙ total-react e s)
]

-- Once every chunk is acknowledged, in any order and among any other events, the sender is done.
pub run_finishes :
    (events : List Event) (s : Sender)
    → length s.acked < s.total
    → ((i : ℕ) → i < s.total → Acknowledges i events)
    → (run events s).done ≡ true
run_finishes events s few all =
    let (short, total) = run-IsShort events s (record { short = λ e. few }) in
    elim (Bool-cases (run events s).done) [
      | inl over ↦ over
      | inr more ↦
          let full =
            le-length_of_elem s.total (naturals (run events s).acked)
              (λ i lt. elem-naturals i _ ∙ acked i (run_acks i events s (all i lt)) more) in
          absurd
            (omega (arith, full, length-naturals (run events s).acked, short.short more, total))
    ]
  where
    acked :
        (i : ℕ)
        → ((run events s).done ≡ true) ⊎ (member (pos i) (run events s).acked ≡ true)
        → (run events s).done ≡ false
        → member (pos i) (run events s).acked ≡ true
    acked i (inl over) more = absurd (cc)
    acked i (inr there) more = there
