-- ===== src/Window/Stall.antt =====
-- The window does not slide: a file with more chunks than the window is never sent whole.
use mathlib.Core.Path.{subst, sym}
use distri_store.Prelude.{
  ℕ, ◌+◌, ◌≤◌, ◌<◌, ◌≡◌, refl, ap, ◌∙◌, false, ◌||◌, List, [], ◌∷◌, map, length, length-map, leb,
  ltb, ◌==◌, Bytes, inl, inr, Bool-cases, arith, if◌then◌else◌,
}
use distri_store.Prelude.Count.{elem, count, elem-count, length-le_of_count}
use distri_store.Manifest.{ChunkInfo}
use distri_store.Window.{
  pos, negsuc, same_index, Sender, init, member, add, send_chunk, fill, start, handle_ack, sweep,
  Event, acknowledged, other_message, connection_lost, swept, react, run,
}
use distri_store.Window.Bounds.{slide_idle, run_active}

-- The acknowledgements and the sweeps, of a peer that acknowledges only indices below `n`, the
-- number of chunks sent, on a connection that stays open.
abbrev pub HonestEvents : ℕ → List Event → Type 0
HonestEvents n [] = Unit
HonestEvents n (acknowledged (pos i) ∷ events) = (i < n) × HonestEvents n events
HonestEvents n (acknowledged (negsuc i) ∷ events) = ⊥
HonestEvents n (connection_lost ∷ events) = ⊥
HonestEvents n (other_message ∷ events) = HonestEvents n events
HonestEvents n (swept now ∷ events) = HonestEvents n events

record IsWaiting (m n total : ℕ) (s : Sender) : Type 0 where
  seen : List ℕ
  acks : s.acked ≡ map pos seen
  once : (i : ℕ) → count i seen ≤ 1
  below : (i : ℕ) → n ≤ i → count i seen ≡ 0
  waiting : s.done ≡ false
  idx : s.send_idx ≡ m
  all : s.total ≡ total

member-pos : (i : ℕ) (l : List ℕ) → member (pos i) (map pos l) ≡ elem i l
unfolding member elem same_index
member-pos i [] = refl
member-pos i (j ∷ l) = ap (λ b. j == i || b) (member-pos i l)

-- The indices seen, once `i` is acknowledged.
noted : ℕ → List ℕ → List ℕ
noted i l = if elem i l then l else i ∷ l

add-noted : (i : ℕ) (l : List ℕ) → add (pos i) (map pos l) ≡ map pos (noted i l)
unfolding add noted
add-noted i l = ground (arith, member-pos i l)

count-noted :
    (i j : ℕ) (l : List ℕ)
    → count j (noted i l) ≡ (if elem i l then count j l else (if i == j then 1 else 0) + count j l)
unfolding noted count
count-noted i j l = ground arith

handle_ack-IsWaiting :
    (m n total i : ℕ) (s : Sender)
    → n < total
    → i < n
    → IsWaiting m n total s
    → IsWaiting m n total (handle_ack (pos i) s)
unfolding handle_ack
handle_ack-IsWaiting m n total i s few lt h =
    let added : add (pos i) s.acked ≡ map pos (noted i h.seen) =
      ap (add (pos i)) h.acks ∙ add-noted i h.seen in
    let once : (j : ℕ) → count j (noted i h.seen) ≤ 1 =
      λ j. ground (arith, h.once j, count-noted i j h.seen, elem-count i h.seen) in
    let below : (j : ℕ) → n ≤ j → count j (noted i h.seen) ≡ 0 =
      λ j le. ground (arith, h.below j, count-noted i j h.seen) in
    let size : length (add (pos i) s.acked) ≤ n =
      rw (added, length-map {0, 0}) (length-le_of_count n (noted i h.seen) once below) in
    let more : leb s.total (length (add (pos i) s.acked)) ≡ false = ground (arith, h.all) in
    rw (more, slide_idle)
      (record {
        seen = noted i h.seen;
        acks = added;
        once = once;
        below = below;
        waiting = h.waiting;
        idx = h.idx;
        all = h.all;
      })

sweep-IsWaiting :
    (m n total now : ℕ) (s : Sender) → IsWaiting m n total s → IsWaiting m n total (sweep now s)
unfolding sweep
sweep-IsWaiting m n total now s h = record {
  seen = h.seen;
  acks = h.acks;
  once = h.once;
  below = h.below;
  waiting = h.waiting;
  idx = h.idx;
  all = h.all;
}

run-IsWaiting :
    (m n total : ℕ) (events : List Event) (s : Sender)
    → n < total
    → HonestEvents n events
    → IsWaiting m n total s
    → IsWaiting m n total (run events s)
unfolding run react
run-IsWaiting m n total [] s few honest h = h
run-IsWaiting m n total (acknowledged (pos i) ∷ events) s few honest h =
    rw (run_active _ events s h.waiting) (
      run-IsWaiting m n total events _ few honest.1
        (handle_ack-IsWaiting m n total i s few honest.0 h))
run-IsWaiting m n total (acknowledged (negsuc i) ∷ events) s few honest h = absurd honest
run-IsWaiting m n total (connection_lost ∷ events) s few honest h = absurd honest
run-IsWaiting m n total (other_message ∷ events) s few honest h =
    rw (run_active _ events s h.waiting) (run-IsWaiting m n total events s few honest h)
run-IsWaiting m n total (swept now ∷ events) s few honest h =
    rw (run_active _ events s h.waiting)
      (run-IsWaiting m n total events _ few honest (sweep-IsWaiting m n total now s h))

fill_advances :
    (during : ℕ → ℕ × List Event) (chunks : List (ChunkInfo × Bytes)) (s : Sender)
    → s.send_idx ≤ (fill during chunks s).send_idx
unfolding fill
fill_advances during [] s = omega arith
fill_advances during ((info, body) ∷ rest) s =
    let (now, events) = during s.send_idx in
    let next = record (run events (send_chunk now info body s)) { send_idx = s.send_idx + 1 } in
    elim (Bool-cases (ltb (length s.unacked) s.window_size)) [
      | inr full ↦ rw (fill, full) (omega arith)
      | inl room ↦ rw (fill, room) (omega (arith, fill_advances during rest next))
    ]

-- One more chunk is sent, with what happens meanwhile.
send_chunk-IsWaiting :
    (n total now : ℕ) (events : List Event) (info : ChunkInfo) (body : Bytes) (s : Sender)
    → n + 1 < total
    → HonestEvents (n + 1) events
    → IsWaiting n n total s
    → IsWaiting
        (n + 1)
        (n + 1)
        total
        (record (run events (send_chunk now info body s)) { send_idx = s.send_idx + 1 })
unfolding send_chunk
send_chunk-IsWaiting n total now events info body s few honest h =
    let after =
      run-IsWaiting n (n + 1) total events (send_chunk now info body s) few honest (record {
        seen = h.seen;
        acks = h.acks;
        once = h.once;
        below = λ i le. h.below i (omega (arith, le));
        waiting = h.waiting;
        idx = h.idx;
        all = h.all;
      }) in
    record {
      seen = after.seen;
      acks = after.acks;
      once = after.once;
      below = after.below;
      waiting = after.waiting;
      idx = omega (arith, h.idx);
      all = after.all;
    }

fill-IsWaiting :
    (n total : ℕ) (during : ℕ → ℕ × List Event) (chunks : List (ChunkInfo × Bytes)) (s : Sender)
    → ((i : ℕ) → HonestEvents (i + 1) (during i).1)
    → (fill during chunks s).send_idx < total
    → IsWaiting n n total s
    → IsWaiting
        (fill during chunks s).send_idx
        (fill during chunks s).send_idx
        total
        (fill during chunks s)
unfolding fill
fill-IsWaiting n total during [] s honest few h = subst (λ m. IsWaiting m m total s) (sym h.idx) h
fill-IsWaiting n total during ((info, body) ∷ rest) s honest few h =
    let (now, events) = during s.send_idx in
    let next = record (run events (send_chunk now info body s)) { send_idx = s.send_idx + 1 } in
    elim (Bool-cases (ltb (length s.unacked) s.window_size)) [
      | inr full ↦ rw (fill, full) (subst (λ m. IsWaiting m m total s) (sym h.idx) h)
      | inl room ↦
          let few' : (fill during rest next).send_idx < total = rw (fill, room) at few in
          let more : n + 1 < total = omega (arith, few', fill_advances during rest next, h.idx) in
          let honest_now : HonestEvents (n + 1) (during s.send_idx).1 =
            subst (λ m. HonestEvents (m + 1) (during s.send_idx).1) h.idx (honest s.send_idx) in
          rw (fill, room)
            (fill-IsWaiting (n + 1) total during rest next honest few' (
              send_chunk-IsWaiting n total (during s.send_idx).0 (during s.send_idx).1 info body s
                more honest_now h))
    ]

-- For a peer that acknowledges only chunks that were sent, on a connection that stays open: when the
-- loop that fills the window ends before the last chunk, which it does when the window is full, the
-- file is never finished. Whatever is acknowledged then, in any order, and however often the sweep
-- runs, no further chunk is taken up, and `_done` is not set.
pub send_all_stalls :
    (during : ℕ → ℕ × List Event) (window_size : ℕ) (chunks : List (ChunkInfo × Bytes))
    (events : List Event)
    → ((i : ℕ) → HonestEvents (i + 1) (during i).1)
    → (start during window_size chunks).send_idx < length chunks
    → HonestEvents (start during window_size chunks).send_idx events
    → ((run events (start during window_size chunks)).send_idx
        ≡ (start during window_size chunks).send_idx)
      × ((run events (start during window_size chunks)).done ≡ false)
unfolding start init
send_all_stalls during window_size chunks events honest_before few honest =
    let total = length chunks in
    let blank : IsWaiting 0 0 total (init window_size total) = record {
      seen = [];
      acks = refl;
      once = λ i. unfold count in omega arith;
      below = λ i le. unfold count in refl;
      waiting = refl;
      idx = refl;
      all = refl;
    } in
    let filled =
      fill-IsWaiting 0 total during chunks (init window_size total) honest_before few blank in
    let m = (start during window_size chunks).send_idx in
    let waits = run-IsWaiting m m total events _ few honest filled in (waits.idx, waits.waiting)
