-- ===== src/Dht/Distance.antt =====
-- The XOR distance is a metric.
use distri_store.Prelude.{
  ℕ, zero, suc, ◌+◌, ◌/◌, ◌≤◌, ◌≡◌, refl, sym, ◌∙◌, Option, some, Str, ◌↔◌, ap, arith,
}
use distri_store.Dht.{xor_bits, xor, xor_distance}

bits_comm : (f a b : ℕ) → xor_bits f a b ≡ xor_bits f b a
unfolding xor_bits
bits_comm zero a b = refl
bits_comm (suc f) a b = ground (arith, bits_comm f (a / 2) (b / 2))

bits_self : (f a : ℕ) → xor_bits f a a ≡ 0
unfolding xor_bits
bits_self zero a = refl
bits_self (suc f) a = ground (arith, bits_self f (a / 2))

bits_zero : (f a b : ℕ) → a ≤ f → b ≤ f → xor_bits f a b ≡ 0 → a ≡ b
unfolding xor_bits
bits_zero zero a b ha hb e = omega arith
bits_zero (suc f) a b ha hb e =
    let rest : xor_bits f (a / 2) (b / 2) ≡ 0 = ground arith in
    let half = bits_zero f (a / 2) (b / 2) (omega arith) (omega arith) rest in ground arith

bits_triangle : (f a b c : ℕ) → xor_bits f a c ≤ xor_bits f a b + xor_bits f b c
unfolding xor_bits
bits_triangle zero a b c = omega arith
bits_triangle (suc f) a b c = ground (arith, bits_triangle f (a / 2) (b / 2) (c / 2))

bits_more : (f g a b : ℕ) → a ≤ f → b ≤ f → f ≤ g → xor_bits f a b ≡ xor_bits g a b
unfolding xor_bits
bits_more zero zero a b ha hb h = refl
bits_more zero (suc g) a b ha hb h =
    let rest = bits_more zero g (a / 2) (b / 2) (omega arith) (omega arith) (omega arith) in
    ground arith
bits_more (suc f) zero a b ha hb h = absurd (omega arith)
bits_more (suc f) (suc g) a b ha hb h =
    ground (arith, bits_more f g (a / 2) (b / 2) (omega arith) (omega arith) (omega arith))

xor_wide : (f a b : ℕ) → a + b ≤ f → xor a b ≡ xor_bits f a b
unfolding xor
xor_wide f a b h = bits_more (a + b) f a b (omega arith) (omega arith) h

xor_comm : (a b : ℕ) → xor a b ≡ xor b a
xor_comm a b =
    xor_wide (a + b) a b (omega arith)
    ∙ (bits_comm (a + b) a b ∙ sym (xor_wide (a + b) b a (omega arith)))

xor_zero : (a b : ℕ) → (xor a b ≡ 0) ↔ (a ≡ b)
unfolding xor
xor_zero a b =
    (λ e. bits_zero (a + b) a b (omega arith) (omega arith) e, λ e. rw e (bits_self (b + b) b))

xor_triangle : (a b c : ℕ) → xor a c ≤ xor a b + xor b c
xor_triangle a b c =
    let f = a + b + c in
    omega (
      arith,
      bits_triangle f a b c,
      xor_wide f a c (omega arith),
      xor_wide f a b (omega arith),
      xor_wide f b c (omega arith),
    )

-- For three ids that are numbers: their distances exist, are the same in both directions, are 0
-- exactly between equal numbers, and satisfy the triangle inequality.
pub xor_distance_metric :
    (int16 : Str → Option ℕ) (x y z : Str) {a b c : ℕ}
    → int16 x ≡ some a
    → int16 y ≡ some b
    → int16 z ≡ some c
    → (d : ℕ) × (e : ℕ) × (f : ℕ) × (xor_distance int16 x y ≡ some d)
      × (xor_distance int16 y x ≡ some d)
      × (xor_distance int16 y z ≡ some e)
      × (xor_distance int16 x z ≡ some f)
      × ((d ≡ 0) ↔ (a ≡ b))
      × (f ≤ d + e)
unfolding xor_distance
xor_distance_metric int16 x y z {a} {b} {c} hx hy hz = (
  xor a b,
  xor b c,
  xor a c,
  rw (hx, hy, xor_distance) refl,
  rw (hy, hx, xor_distance) (ap (λ n. some n) (xor_comm b a)),
  rw (hy, hz, xor_distance) refl,
  rw (hx, hz, xor_distance) refl,
  xor_zero a b,
  xor_triangle a b c,
)
