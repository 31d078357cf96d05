-- ===== src/Window/Resent.antt =====
-- How often a chunk is put on the wire.
use mathlib.Core.Path.{subst}
use distri_store.Prelude.{
  ℕ, ◌+◌, ◌≤◌, ◌≡◌, refl, sym, ap, ◌∙◌, Bool, false, true, ◌&&◌, List, [], ◌∷◌, ◌++◌, map, length,
  leb, ltb, ◌==◌, Bytes, inl, inr, Bool-cases, arith, if◌then◌else◌,
}
use distri_store.Prelude.Count.{count, count-append}
use distri_store.Manifest.{ChunkInfo}
use distri_store.Window.{
  AckIndex, pos, negsuc, UnackedChunk, Sender, max_retries, init, pending, put_chunk, drop_chunk,
  send_chunk, fill, start, forget, add, handle_ack, timed_out, retry, resent, sweep, Event,
  acknowledged, other_message, connection_lost, swept, react, run,
}
use distri_store.Window.Bounds.{slide_idle, fresh, run-IsBounded, fill-IsBounded}

abbrev pub indices : List UnackedChunk → List ℕ
indices = map (λ c. c.index)

-- Each unacknowledged chunk stands there once, and is on the wire once more often than it was
-- retried.
abbrev AllCounted : List ℕ → List UnackedChunk → Type 0
AllCounted wire [] = Unit
AllCounted wire (c ∷ l) =
    ((count c.index wire ≡ 1 + c.retries)
      × (c.retries ≤ max_retries)
      × (count c.index (indices l) ≡ 0))
    × AllCounted wire l

-- No chunk was sent more often than once and `MAX_RETRIES` times again; and the chunks from `n` on
-- were not sent.
record IsCounted (n : ℕ) (s : Sender) : Type 0 where
  each : AllCounted s.wire s.unacked
  few : (i : ℕ) → count i s.wire ≤ 1 + max_retries
  unsent : (i : ℕ) → n ≤ i → count i s.wire ≡ 0

-- One more index on the wire, of a chunk that is not in the list.
wire_cons-AllCounted :
    (i : ℕ) (wire : List ℕ) (l : List UnackedChunk)
    → count i (indices l) ≡ 0
    → AllCounted wire l
    → AllCounted (i ∷ wire) l
unfolding count
wire_cons-AllCounted i wire [] absent h = tt
wire_cons-AllCounted i wire (c ∷ l) absent h = (
  (ground (arith, absent, h.0.0), h.0.1, h.0.2),
  wire_cons-AllCounted i wire l (ground (arith, absent)) h.1,
)

indices-retry : (now : ℕ) (l : List UnackedChunk) → indices (map (retry now) l) ≡ indices l
unfolding retry
indices-retry now [] = refl
indices-retry now (c ∷ l) =
    let same : (retry now c).index ≡ c.index = ground arith in let rest = indices-retry now l in cc

count-resent : (now i : ℕ) (l : List UnackedChunk) → count i (resent now l) ≤ count i (indices l)
unfolding resent count
count-resent now i [] = omega arith
count-resent now i (c ∷ l) = ground (arith, count-resent now i l)

-- Whether the sweep sends a chunk again.
abbrev due : ℕ → UnackedChunk → Bool
due now c = timed_out now c && ltb c.retries max_retries

resent_again :
    (now : ℕ) (c : UnackedChunk) (l : List UnackedChunk)
    → due now c ≡ true
    → (resent now (c ∷ l) ≡ c.index ∷ resent now l)
      × (retry now c ≡ record c { retries = c.retries + 1; timestamp = now })
unfolding resent retry
resent_again now c l again = (rw (resent, again) refl, rw (retry, again) refl)

resent_idle :
    (now : ℕ) (c : UnackedChunk) (l : List UnackedChunk)
    → due now c ≡ false
    → (resent now (c ∷ l) ≡ resent now l) × (retry now c ≡ c)
unfolding resent retry
resent_idle now c l idle = (rw (resent, idle) refl, rw (retry, idle) refl)

resent_nil : (now : ℕ) → resent now [] ≡ []
unfolding resent
resent_nil now = refl

count-cons : (i j : ℕ) (l : List ℕ) → count i (j ∷ l) ≡ (if j == i then 1 else 0) + count i l
unfolding count
count-cons i j l = refl

sweep_counts :
    (now : ℕ) (wire : List ℕ) (l : List UnackedChunk)
    → AllCounted wire l
    → ((i : ℕ) → count i wire ≤ 1 + max_retries)
    → AllCounted (resent now l ++ wire) (map (retry now) l)
      × ((i : ℕ) → count i (resent now l ++ wire) ≤ 1 + max_retries)
sweep_counts now wire [] h few = rw resent_nil (tt, few)
sweep_counts now wire (c ∷ l) h few =
    let (rest, rest_few) = sweep_counts now wire l h.1 few in
    let after = resent now l ++ wire in
    let goal : List ℕ → Type 0 =
      λ v. AllCounted v (map (retry now) (c ∷ l)) × ((i : ℕ) → count i v ≤ 1 + max_retries) in
    let quiet : count c.index after ≡ count c.index wire =
      omega (arith, count-append c.index (resent now l) wire, count-resent now c.index l, h.0.2) in
    let absent : count c.index (indices (map (retry now) l)) ≡ 0 =
      ap (count c.index) (indices-retry now l) ∙ h.0.2 in
    elim (Bool-cases (due now c)) [
      | inl again ↦
          let (sent, retried) = resent_again now c l again in
          let tries : c.retries + 1 ≤ max_retries = ground (arith, again) in
          subst goal (sym (ap (λ (v : List ℕ). v ++ wire) sent)) (
            rw retried (
              (
                (ground (arith, count-cons c.index c.index after, quiet, h.0.0), tries, absent),
                wire_cons-AllCounted c.index after (map (retry now) l) absent rest,
              ),
              λ i. ground (arith, count-cons i c.index after, rest_few i, quiet, h.0.0, tries),
            ))
      | inr idle ↦
          let (sent, retried) = resent_idle now c l idle in
          subst goal (sym (ap (λ (v : List ℕ). v ++ wire) sent))
            (rw retried (((quiet ∙ h.0.0, h.0.1, absent), rest), rest_few))
    ]

drop_chunk-AllCounted :
    (i : ℕ) (wire : List ℕ) (l : List UnackedChunk)
    → AllCounted wire l
    → AllCounted wire (drop_chunk i l)
      × ((j : ℕ) → count j (indices (drop_chunk i l)) ≤ count j (indices l))
unfolding drop_chunk count
drop_chunk-AllCounted i wire [] h = (tt, λ j. omega arith)
drop_chunk-AllCounted i wire (d ∷ l) h =
    let (rest, fewer) = drop_chunk-AllCounted i wire l h.1 in
    elim (Bool-cases (d.index == i)) [
      | inl same ↦ rw same (rest, λ j. omega (arith, fewer j))
      | inr other ↦
          rw other (
            ((h.0.0, h.0.1, omega (arith, fewer d.index, h.0.2)), rest),
            λ j. omega (arith, fewer j),
          )
    ]

forget-AllCounted :
    (i : AckIndex) (wire : List ℕ) (l : List UnackedChunk)
    → AllCounted wire l
    → AllCounted wire (forget i l)
unfolding forget
forget-AllCounted (pos i) wire l h = elim (Bool-cases (pending i l)) [
  | inl there ↦ rw there (drop_chunk-AllCounted i wire l h).0
  | inr gone ↦ rw gone h
]
forget-AllCounted (negsuc i) wire l h = h

handle_ack-keeps :
    (i : AckIndex) (s : Sender)
    → ((handle_ack i s).unacked ≡ forget i s.unacked) × ((handle_ack i s).wire ≡ s.wire)
unfolding handle_ack
handle_ack-keeps i s = elim (Bool-cases (leb s.total (length (add i s.acked)))) [
  | inl over ↦ rw over (refl, refl)
  | inr more ↦ rw (more, slide_idle) (refl, refl)
]

-- Among chunks that are on the wire, one that was not sent yet has no entry.
unsent-absent :
    (i : ℕ) (wire : List ℕ) (l : List UnackedChunk)
    → count i wire ≡ 0
    → AllCounted wire l
    → count i (indices l) ≡ 0
unfolding count
unsent-absent i wire [] none h = refl
unsent-absent i wire (c ∷ l) none h =
    let rest = unsent-absent i wire l none h.1 in
    elim (Bool-cases (c.index == i)) [
      | inl same ↦
          let e : c.index ≡ i = ground (arith, same) in
          absurd (omega (arith, ap (λ j. count j wire) e, none, h.0.0))
      | inr other ↦ rw other (omega (arith, rest))
    ]

put_chunk_new :
    (c : UnackedChunk) (l : List UnackedChunk)
    → count c.index (indices l) ≡ 0
    → put_chunk c l ≡ l ++ c ∷ []
unfolding put_chunk count
put_chunk_new c [] new = refl
put_chunk_new c (d ∷ l) new =
    let other : (d.index == c.index) ≡ false = ground (arith, new) in
    rw other (ap (◌∷◌ d) (put_chunk_new c l (ground (arith, new))))

count-snoc :
    (j : ℕ) (c : UnackedChunk) (l : List UnackedChunk)
    → count j (indices (l ++ c ∷ [])) ≡ count j (indices l) + (if c.index == j then 1 else 0)
unfolding count
count-snoc j c [] = omega arith
count-snoc j c (d ∷ l) = omega (arith, count-snoc j c l)

snoc-AllCounted :
    (c : UnackedChunk) (wire : List ℕ) (l : List UnackedChunk)
    → count c.index wire ≡ 1 + c.retries
    → c.retries ≤ max_retries
    → count c.index (indices l) ≡ 0
    → AllCounted wire l
    → AllCounted wire (l ++ c ∷ [])
unfolding count
snoc-AllCounted c wire [] once tries new h = ((once, tries, refl), tt)
snoc-AllCounted c wire (d ∷ l) once tries new h = (
  (h.0.0, h.0.1, ground (arith, count-snoc d.index c l, h.0.2, new)),
  snoc-AllCounted c wire l once tries (ground (arith, new)) h.1,
)

react-IsCounted : (n : ℕ) (e : Event) (s : Sender) → IsCounted n s → IsCounted n (react e s)
unfolding react sweep
react-IsCounted n (acknowledged i) s h =
    let (unacked, wire) = handle_ack-keeps i s in
    record {
      each = rw (unacked, wire) (forget-AllCounted i s.wire s.unacked h.each);
      few = λ j. rw wire (h.few j);
      unsent = λ j le. rw wire (h.unsent j le);
    }
react-IsCounted n other_message s h = h
react-IsCounted n connection_lost s h = record { each = h.each; few = h.few; unsent = h.unsent }
react-IsCounted n (swept now) s h =
    let (each, few) = sweep_counts now s.wire s.unacked h.each h.few in
    record {
      each = each;
      few = few;
      unsent = λ j le. omega (
        arith,
        count-append j (resent now s.unacked) s.wire,
        count-resent now j s.unacked,
        unsent-absent j s.wire s.unacked (h.unsent j le) h.each,
        h.unsent j le,
      );
    }

run-IsCounted :
    (n : ℕ) (events : List Event) (s : Sender) → IsCounted n s → IsCounted n (run events s)
unfolding run
run-IsCounted n [] s h = h
run-IsCounted n (e ∷ events) s h = elim (Bool-cases s.done) [
  | inl over ↦ simp over (run-IsCounted n events s h)
  | inr more ↦ simp more (run-IsCounted n events (react e s) (react-IsCounted n e s h))
]

-- The chunks carry the indices from `n` on, in order.
abbrev pub IsNumbered : ℕ → List (ChunkInfo × Bytes) → Type 0
IsNumbered n [] = Unit
IsNumbered n ((info, body) ∷ chunks) = (info.index ≡ n) × IsNumbered (n + 1) chunks

send_chunk-IsCounted :
    (n now : ℕ) (info : ChunkInfo) (body : Bytes) (s : Sender)
    → info.index ≡ n
    → IsCounted n s
    → IsCounted (n + 1) (send_chunk now info body s)
unfolding send_chunk
send_chunk-IsCounted n now info body s e h =
    let c = fresh now info body in
    let unsent : count info.index s.wire ≡ 0 = h.unsent info.index (omega (arith, e)) in
    let absent = unsent-absent info.index s.wire s.unacked unsent h.each in
    record {
      each = rw (put_chunk_new c s.unacked absent) (
          snoc-AllCounted c (info.index ∷ s.wire) s.unacked
            (ground (arith, count-cons info.index info.index s.wire, unsent)) (omega arith) absent
            (wire_cons-AllCounted info.index s.wire s.unacked absent h.each));
      few = λ i. ground (arith, count-cons i info.index s.wire, h.few i, unsent);
      unsent = λ i le. ground (arith, count-cons i info.index s.wire, h.unsent i, e, le);
    }

fill-IsCounted :
    (n : ℕ) (during : ℕ → ℕ × List Event) (chunks : List (ChunkInfo × Bytes)) (s : Sender)
    → IsNumbered n chunks
    → IsCounted n s
    → IsCounted (n + length chunks) (fill during chunks s)
unfolding fill
fill-IsCounted n during [] s numbered h = record {
  each = h.each;
  few = h.few;
  unsent = λ j le. h.unsent j (omega (arith, le));
}
fill-IsCounted n during ((info, body) ∷ rest) s numbered h =
    let (now, events) = during s.send_idx in
    elim (Bool-cases (ltb (length s.unacked) s.window_size)) [
      | inr full ↦
          rw (fill, full)
            (record { each = h.each; few = h.few; unsent = λ j le. h.unsent j (omega (arith, le)) })
      | inl room ↦
          let sent =
            run-IsCounted (n + 1) events (send_chunk now info body s)
              (send_chunk-IsCounted n now info body s numbered.0 h) in
          let after =
            fill-IsCounted (n + 1) during rest _ numbered.1
              (record { each = sent.each; few = sent.few; unsent = sent.unsent }) in
          rw (fill, room)
            (record {
              each = after.each;
              few = after.few;
              unsent = λ j le. after.unsent j (omega (arith, le));
            })
    ]

-- The bounds of a sender: the window, and how often each index is on the wire.
pub record IsBoundedOnWire (s : Sender) : Type 0 where
  pub in_flight : length s.unacked ≤ s.window_size
  pub times : (i : ℕ) → count i s.wire ≤ 1 + max_retries

-- For chunks that are numbered in order: whatever arrives and however often the sweep runs, while
-- the window is filled and after it, no more chunks are unacknowledged than the window holds, and no
-- chunk is sent more often than once and `MAX_RETRIES` times again.
pub run-start-IsBounded :
    (during : ℕ → ℕ × List Event) (window_size : ℕ) (chunks : List (ChunkInfo × Bytes))
    (events : List Event)
    → IsNumbered 0 chunks
    → IsBoundedOnWire (run events (start during window_size chunks))
unfolding start init
run-start-IsBounded during window_size chunks events numbered =
    let blank = init window_size (length chunks) in
    let filled = fill-IsCounted 0 during chunks blank numbered (record {
      each = tt;
      few = λ i. unfold count in omega arith;
      unsent = λ i le. unfold count in refl;
    }) in
    let counted = run-IsCounted (0 + length chunks) events _ filled in
    let bounded =
      run-IsBounded events _
        (fill-IsBounded during chunks blank (record { in_flight = omega arith })) in
    record { in_flight = bounded.in_flight; times = counted.few }
