-- ===== src/Window/Tests.antt =====
-- The sender with a window of two, over two and over three chunks.
use mathlib.Core.Path.{subst}
use distri_store.Prelude.{
  sym, ℕ, zero, suc, ◌<◌, ◌≡◌, refl, true, false, inl, inr, List, [], ◌∷◌, Bytes, codes, length,
  arith,
}
use distri_store.Manifest.{ChunkInfo}
use distri_store.Window.{
  pos, Sender, put_chunk, send_chunk, fill, start, Event, acknowledged, other_message, swept, run,
}
use distri_store.Window.Resent.{IsNumbered, IsBoundedOnWire, run-start-IsBounded}
use distri_store.Window.Delivery.{Acknowledges, run_finishes}
use distri_store.Window.Stall.{HonestEvents, send_all_stalls}

abbrev chunk : ℕ → ChunkInfo × Bytes
chunk i = (record { index = i; chunk_hash = codes "c"; size = 1; encrypted = false }, i ∷ [])

abbrev two_chunks : List (ChunkInfo × Bytes)
two_chunks = chunk 0 ∷ chunk 1 ∷ []

abbrev three_chunks : List (ChunkInfo × Bytes)
three_chunks = chunk 0 ∷ chunk 1 ∷ chunk 2 ∷ []

-- The sweep sends both chunks again before they are acknowledged.
abbrev events : List Event
events = swept 5000 ∷ acknowledged (pos 1) ∷ other_message ∷ acknowledged (pos 0) ∷ []

-- While a chunk is sent, the sweep runs.
abbrev during : ℕ → ℕ × List Event
during i = (0, swept 4000 ∷ [])

numbered : IsNumbered 0 three_chunks
numbered = (refl, (omega arith, (omega arith, tt)))

run-start-IsBounded_example : IsBoundedOnWire (run events (start during 2 three_chunks))
run-start-IsBounded_example = run-start-IsBounded during 2 three_chunks events numbered

both : (i : ℕ) → i < 2 → Acknowledges i events
both zero h = inr (inl refl)
both (suc zero) h = inl refl
both (suc (suc i)) h = absurd (omega arith)

abbrev started : Sender
started = start during 2 two_chunks

started_size : started.total ≡ 2
unfolding start fill send_chunk put_chunk
started_size = refl

started_short : length started.acked < started.total
unfolding start fill send_chunk put_chunk
started_short = omega arith

run_finishes_example : (run events started).done ≡ true
run_finishes_example =
    run_finishes events started started_short (λ i h. both i (omega (arith, started_size)))

honest : HonestEvents 2 events
honest = (omega arith, (omega arith, tt))

full : (start during 2 three_chunks).send_idx ≡ 2
unfolding start fill send_chunk put_chunk
full = refl

send_all_stalls_example :
    ((run events (start during 2 three_chunks)).send_idx ≡ (start during 2 three_chunks).send_idx)
    × ((run events (start during 2 three_chunks)).done ≡ false)
send_all_stalls_example =
    send_all_stalls during 2 three_chunks events (λ i. tt) (omega (arith, full))
      (subst (λ m. HonestEvents m events) (sym full) honest)
