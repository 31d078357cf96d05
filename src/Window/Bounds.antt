-- ===== src/Window/Bounds.antt =====
-- The window is never exceeded.
use distri_store.Prelude.{
  ℕ, ◌+◌, ◌≤◌, ◌≡◌, false, List, [], ◌∷◌, length, length-map, leb, ltb, Bytes, inl, inr, Bool-cases,
  arith,
}
use distri_store.Manifest.{ChunkInfo}
use distri_store.Window.{
  AckIndex, pos, negsuc, UnackedChunk, Sender, pending, put_chunk, drop_chunk, send_chunk, fill,
  forget, add, slide, handle_ack, retry, sweep, Event, acknowledged, other_message, connection_lost,
  swept, react, run,
}

pub record IsBounded (s : Sender) : Type 0 where
  pub in_flight : length s.unacked ≤ s.window_size

length-put_chunk :
    (c : UnackedChunk) (l : List UnackedChunk) → length (put_chunk c l) ≤ length l + 1
unfolding put_chunk
length-put_chunk c [] = omega arith
length-put_chunk c (d ∷ l) = ground (arith, length-put_chunk c l)

length-drop_chunk : (i : ℕ) (l : List UnackedChunk) → length (drop_chunk i l) ≤ length l
unfolding drop_chunk
length-drop_chunk i [] = omega arith
length-drop_chunk i (d ∷ l) = ground (arith, length-drop_chunk i l)

length-forget : (i : AckIndex) (l : List UnackedChunk) → length (forget i l) ≤ length l
unfolding forget
length-forget (pos i) l = elim (Bool-cases (pending i l)) [
  | inl there ↦ rw there (length-drop_chunk i l)
  | inr gone ↦ rw gone (omega arith)
]
length-forget (negsuc i) l = omega arith

pub slide_idle : (s : Sender) → slide s ≡ s
unfolding slide
slide_idle s = ground arith

handle_ack-IsBounded : (i : AckIndex) (s : Sender) → IsBounded s → IsBounded (handle_ack i s)
unfolding handle_ack
handle_ack-IsBounded i s h =
    let shorter = length-forget i s.unacked in
    elim (Bool-cases (leb s.total (length (add i s.acked)))) [
      | inl over ↦ rw over (record { in_flight = omega (arith, shorter, h.in_flight) })
      | inr more ↦
          rw (more, slide_idle) (record { in_flight = omega (arith, shorter, h.in_flight) })
    ]

-- An event on a sender that is not done.
pub run_active :
    (e : Event) (events : List Event) (s : Sender)
    → s.done ≡ false
    → run (e ∷ events) s ≡ run events (react e s)
unfolding run
run_active e events s h = simp h

react-IsBounded : (e : Event) (s : Sender) → IsBounded s → IsBounded (react e s)
unfolding react sweep
react-IsBounded (acknowledged i) s h = handle_ack-IsBounded i s h
react-IsBounded other_message s h = h
react-IsBounded connection_lost s h = record { in_flight = h.in_flight }
react-IsBounded (swept now) s h = record {
  in_flight = omega (arith, length-map {0, 0} s.unacked (retry now), h.in_flight);
}

pub run-IsBounded : (events : List Event) (s : Sender) → IsBounded s → IsBounded (run events s)
unfolding run
run-IsBounded [] s h = h
run-IsBounded (e ∷ events) s h = elim (Bool-cases s.done) [
  | inl over ↦ simp over (run-IsBounded events s h)
  | inr more ↦ simp more (run-IsBounded events (react e s) (react-IsBounded e s h))
]

-- The entry of a chunk that was just sent.
abbrev pub fresh : ℕ → ChunkInfo → Bytes → UnackedChunk
fresh now info body = record {
  index = info.index;
  chunk_hash = info.chunk_hash;
  body = body;
  timestamp = now;
  retries = 0;
}

pub fill-IsBounded :
    (during : ℕ → ℕ × List Event) (chunks : List (ChunkInfo × Bytes)) (s : Sender)
    → IsBounded s
    → IsBounded (fill during chunks s)
unfolding fill send_chunk
fill-IsBounded during [] s h = h
fill-IsBounded during ((info, body) ∷ rest) s h =
    let (now, events) = during s.send_idx in
    elim (Bool-cases (ltb (length s.unacked) s.window_size)) [
      | inr full ↦ rw full h
      | inl room ↦
          let after = run-IsBounded events (send_chunk now info body s) (record {
            in_flight = ground (arith, length-put_chunk (fresh now info body) s.unacked);
          }) in
          rw room (fill-IsBounded during rest _ (record { in_flight = after.in_flight }))
    ]
