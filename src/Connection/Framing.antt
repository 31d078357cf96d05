-- ===== src/Connection/Framing.antt =====
-- Messages that are sent, and received on the other side.
use mathlib.Core.List.{append_assoc}
use mathlib.Core.Option.{some-injective}
use distri_store.Prelude.{
  ℕ, zero, suc, ◌+◌, ◌*◌, ◌/◌, ◌%◌, ◌≤◌, ◌<◌, ◌≡◌, refl, sym, ap, ◌∙◌, false, none, some, inl, inr,
  List, [], ◌∷◌, ◌++◌, Bytes, length, length-append, drop, ltb, Bool-cases, Option-cases, arith,
  if◌then◌else◌,
}
use distri_store.Crypto.RoundTrip.{take_append}
use distri_store.Connection.{
  stream_limit, to_bytes4, read_header, read_exactly, Msgpack, MsgpackLaws, send, receive,
  receive_loop, receive_all,
}

big_endian :
    (n : ℕ)
    → n < 4294967296
    → n / 16777216 * 16777216 + n / 65536 % 256 * 65536 + n / 256 % 256 * 256 + n % 256 ≡ n
big_endian n h = omega arith

read_header-to_bytes4 :
    (n : ℕ) (header rest : Bytes)
    → to_bytes4 n ≡ some header
    → read_header (header ++ rest) ≡ some (n, rest)
unfolding to_bytes4 read_header
read_header-to_bytes4 n header rest h = elim (Bool-cases (ltb n 4294967296)) [
  | inr e ↦ absurd (cc (rw e at h))
  | inl e ↦
      let same = some-injective _ _ (rw e at h) in
      rw (sym same) (ap (λ (x : ℕ). some (x, rest)) (big_endian n (ground (arith, e))))
]

drop_all : (a b : Bytes) → drop (length a) (a ++ b) ≡ b
drop_all [] b = refl
drop_all (x ∷ a) b = drop_all a b

read_exactly_append : (a b : Bytes) → read_exactly (length a) (a ++ b) ≡ some (a, b)
unfolding read_exactly
read_exactly_append a b =
    let enough : ltb (length (a ++ b)) (length a) ≡ false = ground (arith, length-append a b) in
    rw (read_exactly, enough, take_append (length a) a b refl, drop_all a b) refl

module _ {ℓ} {M : Type ℓ} (q : Msgpack M) (laws : MsgpackLaws q) where
  send-cases :
      (m : M) (bytes : Bytes)
      → send q m ≡ some bytes
      → (header : Bytes) × (to_bytes4 (length (q.packb m)) ≡ some header)
        × (header ++ q.packb m ≡ bytes)
  unfolding send
  send-cases m bytes h = elim (Option-cases (to_bytes4 (length (q.packb m)))) [
    | inl no_header ↦ absurd (cc (rw (send, no_header) at h))
    | inr (header, found) ↦ (header, found, some-injective _ _ (rw (send, found) at h))
  ]

  -- What is sent is received, and the rest of the stream is left for the next message; but a
  -- message that is packed to more than 8 MB is sent and is not received.
  pub receive-send :
      (m : M) (bytes rest : Bytes)
      → send q m ≡ some bytes
      → ((receive q (bytes ++ rest)).0
          ≡ (if ltb stream_limit (length (q.packb m)) then none else some m))
        × ((receive q (bytes ++ rest)).1
            ≡ (if ltb stream_limit (length (q.packb m)) then q.packb m ++ rest else rest))
  unfolding receive
  receive-send m bytes rest h =
      let (header, found, eq) = send-cases m bytes h in
      let payload = q.packb m in
      let read : read_header (bytes ++ rest) ≡ some (length payload, payload ++ rest) =
        ap (λ x. read_header (x ++ rest)) (sym eq)
        ∙ (ap read_header (append_assoc header payload rest)
            ∙ read_header-to_bytes4 (length payload) header (payload ++ rest) found) in
      elim (Bool-cases (ltb stream_limit (length payload))) [
        | inl over ↦ rw (receive, read, over) (refl, refl)
        | inr fits ↦
            rw (receive, read, fits, read_exactly_append payload rest) (laws.unpacks m, refl)
      ]

  -- Every message can be sent, and is packed to at most 8 MB; the bytes are those that are written.
  abbrev pub AllWritten : List M → Bytes → Type 0
  AllWritten [] stream = stream ≡ []
  AllWritten (m ∷ ms) stream =
      (bytes : Bytes) × (rest : Bytes) × (send q m ≡ some bytes)
      × (length (q.packb m) ≤ stream_limit)
      × (stream ≡ bytes ++ rest)
      × AllWritten ms rest

  length-send : (m : M) (bytes : Bytes) → send q m ≡ some bytes → 4 ≤ length bytes
  unfolding to_bytes4
  length-send m bytes h =
      let (header, found, eq) = send-cases m bytes h in
      elim (Bool-cases (ltb (length (q.packb m)) 4294967296)) [
        | inr e ↦ absurd (cc (rw e at found))
        | inl e ↦
            let same : length header ≡ 4 = ap length (sym (some-injective _ _ (rw e at found))) in
            let all : length header + length (q.packb m) ≡ length bytes =
              sym (length-append header (q.packb m)) ∙ ap length eq in
            omega (arith, same, all)
      ]

  receive_loop_lem :
      (ms : List M) (fuel : ℕ) (stream : Bytes)
      → length stream ≤ fuel
      → AllWritten ms stream
      → receive_loop q fuel stream ≡ ms
  unfolding receive_loop
  receive_loop_lem [] zero stream h w = refl
  receive_loop_lem [] (suc fuel) stream h w = rw (w, receive_loop) refl
  receive_loop_lem (m ∷ ms) zero stream h (bytes, rest, sends, fits, eq, later) =
      absurd (omega (arith, length-send m bytes sends, ap length eq, length-append bytes rest))
  receive_loop_lem (m ∷ ms) (suc fuel) stream h (bytes, rest, sends, fits, eq, later) =
      let got = receive-send m bytes rest sends in
      let small : ltb stream_limit (length (q.packb m)) ≡ false = ground (arith, fits) in
      let first : (receive q stream).0 ≡ some m =
        ap (λ x. (receive q x).0) eq ∙ (got.0 ∙ rw small refl) in
      let left : (receive q stream).1 ≡ rest =
        ap (λ x. (receive q x).1) eq ∙ (got.1 ∙ rw small refl) in
      rw (receive_loop, first, left)
        (ap (λ x. m ∷ x)
          (receive_loop_lem ms fuel rest
            (omega (arith, length-send m bytes sends, ap length eq, length-append bytes rest))
            later))

  -- For messages that are packed to at most 8 MB: what is written to a connection one after the
  -- other is received on the other side, all of it and in order.
  pub receive_all-AllWritten :
      (ms : List M) (stream : Bytes) → AllWritten ms stream → receive_all q stream ≡ ms
  unfolding receive_all
  receive_all-AllWritten ms stream w = receive_loop_lem ms (length stream) stream (omega arith) w
