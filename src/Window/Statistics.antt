-- ===== src/Window/Statistics.antt =====
-- What the statistics of `send_all` say of the retransmissions.
use distri_store.Prelude.{
  ℕ, ◌≡◌, refl, ◌⊎◌, true, false, List, [], ◌∷◌, map, ◌==◌, inl, inr, Bool-cases, arith,
  if◌then◌else◌,
}
use distri_store.Window.{
  AckIndex, pos, negsuc, same_index, UnackedChunk, Sender, member, add, pending, drop_chunk, forget,
  slide, handle_ack, retry, sweep, Event, acknowledged, other_message, connection_lost, swept,
  react, run, retried, count_retried, retransmissions,
}
use distri_store.Window.Bounds.{run_active}
use distri_store.Window.Delivery.{acked-handle_ack, run_done}

-- No acknowledged chunk is still in the window.
record IsDisjoint (s : Sender) : Type 0 where
  apart : (i : ℕ) → member (pos i) s.acked ≡ true → pending i s.unacked ≡ false

pending-drop_chunk :
    (i j : ℕ) (l : List UnackedChunk)
    → pending j (drop_chunk i l) ≡ (if i == j then false else pending j l)
unfolding pending drop_chunk
pending-drop_chunk i j [] = ground arith
pending-drop_chunk i j (d ∷ l) = ground (arith, pending-drop_chunk i j l)

pending-forget :
    (i : AckIndex) (j : ℕ) (l : List UnackedChunk)
    → pending j (forget i l) ≡ (if same_index i (pos j) then false else pending j l)
unfolding forget same_index
pending-forget (pos i) j l = ground (arith, pending-drop_chunk i j l)
pending-forget (negsuc i) j l = refl

pending-map : (now i : ℕ) (l : List UnackedChunk) → pending i (map (retry now) l) ≡ pending i l
unfolding pending retry
pending-map now i [] = refl
pending-map now i (c ∷ l) = ground (arith, pending-map now i l)

unacked-handle_ack : (i : AckIndex) (s : Sender) → (handle_ack i s).unacked ≡ forget i s.unacked
unfolding handle_ack slide
unacked-handle_ack i s = ground arith

member-add :
    (i j : AckIndex) (l : List AckIndex)
    → member i (add j l) ≡ true
    → (same_index j i ≡ true) ⊎ (member i l ≡ true)
unfolding add member
member-add i j l h = ground arith

react-IsDisjoint : (e : Event) (s : Sender) → IsDisjoint s → IsDisjoint (react e s)
unfolding react sweep
react-IsDisjoint (acknowledged i) s h = record {
  apart = λ j m.
      rw (unacked-handle_ack, pending-forget)
        (ground (arith, member-add (pos j) i s.acked (rw acked-handle_ack at m), h.apart j));
}
react-IsDisjoint other_message s h = h
react-IsDisjoint connection_lost s h = record { apart = h.apart }
react-IsDisjoint (swept now) s h = record { apart = λ i m. rw pending-map (h.apart i m) }

run-IsDisjoint : (events : List Event) (s : Sender) → IsDisjoint s → IsDisjoint (run events s)
run-IsDisjoint [] s h = unfold run in h
run-IsDisjoint (e ∷ events) s h = elim (Bool-cases s.done) [
  | inl over ↦ rw (run_done (e ∷ events) s over) h
  | inr more ↦
      rw (run_active e events s more) (run-IsDisjoint events (react e s) (react-IsDisjoint e s h))
]

retried_of_pending :
    (i : ℕ) (l : List UnackedChunk) → pending i l ≡ false → retried (pos i) l ≡ false
unfolding pending retried
retried_of_pending i [] h = refl
retried_of_pending i (c ∷ l) h = ground (arith, retried_of_pending i l)

none_retried :
    (acked : List AckIndex) (l : List UnackedChunk)
    → ((i : ℕ) → member (pos i) acked ≡ true → pending i l ≡ false)
    → count_retried acked l ≡ 0
unfolding count_retried member same_index
none_retried [] l h = refl
none_retried (pos i ∷ acked) l h =
    rw (retried_of_pending i l (h i (ground arith)))
      (omega (arith, none_retried acked l (λ j m. h j (ground arith))))
none_retried (negsuc i ∷ acked) l h =
    omega (arith, none_retried acked l (λ j m. h j (ground arith)))

-- From a window that was filled before any acknowledgement on, whatever was sent again, the
-- statistics report no retransmission: the count goes over the acknowledged chunks that are still
-- unacknowledged.
pub retransmissions-eq-zero :
    (events : List Event) (s : Sender) → s.acked ≡ [] → retransmissions (run events s) ≡ 0
unfolding retransmissions member
retransmissions-eq-zero events s fresh =
    let disjoint = run-IsDisjoint events s (record {
      apart = λ i m. let none : member (pos i) [] ≡ true = rw fresh at m in absurd (cc none);
    }) in
    none_retried _ _ disjoint.apart
