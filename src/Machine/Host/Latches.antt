-- ===== src/Machine/Host/Latches.antt =====
-- native/rom_probe.c, lines 1178 to 1190: a byte of a latch is replaced, by arithmetic.
use ensoniq_eps_16_plus.Base.{
  ℕ, zero, suc, ◌+◌, ◌-◌, ◌*◌, ◌/◌, ◌%◌, ◌^◌, ◌≤◌, ◌<◌, ◌≡◌, sym, ◌∙◌, ap, arith, bit_and, bit_or,
}
use native.Mathlib.Nat.{pow-suc, pow-succ', div-div-eq-div-mul, mul_assoc}
use ensoniq_eps_16_plus.Base.Bits.{bit_and_low, bit_or_low}
use ensoniq_eps_16_plus.Base.Fields.{bit_and_mask, bit_or_join}
use ensoniq_eps_16_plus.Machine.Host.{put_latch}

-- A mask whose lowest digit is 0, and one whose lowest digit is 1.
and_even : (x q : ℕ) → bit_and x (2 * q) ≡ bit_and (x / 2) q * 2
and_even x q =
    let half : 2 * q / 2 ≡ q = omega arith in bit_and_low x (2 * q) ∙ rw half (omega arith)

and_odd : (x q : ℕ) → bit_and x (2 * q + 1) ≡ bit_and (x / 2) q * 2 + x % 2
and_odd x q =
    let half : (2 * q + 1) / 2 ≡ q = omega arith in
    bit_and_low x (2 * q + 1) ∙ rw half (omega arith)

or_field : (x y l : ℕ) → l < 2 → bit_or (x * 2 + l) (2 * y) ≡ bit_or x y * 2 + l
or_field x y l h =
    let left : (x * 2 + l) / 2 ≡ x = omega arith in
    let right : 2 * y / 2 ≡ y = omega arith in
    bit_or_low (x * 2 + l) (2 * y) ∙ rw left (rw right (omega arith))

clear_low : (k x q : ℕ) → bit_and x (2 ^ k * q) ≡ bit_and (x / 2 ^ k) q * 2 ^ k
clear_low zero x q =
    let e : 2 ^ 0 * q ≡ q = omega arith in
    let f : x / 2 ^ 0 ≡ x = omega arith in rw e (rw f (omega arith))
clear_low (suc k) x q =
    let e : 2 ^ suc k * q ≡ 2 * (2 ^ k * q) =
      omega (arith, ap (λ (t : ℕ). t * q) (pow-succ' 2 k), mul_assoc 2 (2 ^ k) q) in
    let f : x / 2 / 2 ^ k ≡ x / 2 ^ suc k =
      div-div-eq-div-mul x 2 (2 ^ k) ∙ ap (λ (d : ℕ). x / d) (omega (arith, pow-suc 2 k)) in
    let rest = clear_low k (x / 2) q in
    rw e (
      and_even x (2 ^ k * q)
      ∙ rw rest (
          rw f (
            let g = ap (λ (t : ℕ). bit_and (x / 2 ^ suc k) q * t) (pow-suc 2 k) in
            mul_assoc (bit_and (x / 2 ^ suc k) q) (2 ^ k) 2 ∙ sym g)))

-- The mask that clears the eight digits from digit `s` on, below the digits of `q`, and the number
-- with a byte in their place.
unfoldable pub mask : ℕ → ℕ → ℕ
mask zero q = 256 * q
mask (suc s) q = 2 * mask s q + 1

unfoldable pub put : ℕ → ℕ → ℕ → ℕ
put zero v x = x / 256 * 256 + v
put (suc s) v x = put s v (x / 2) * 2 + x % 2

low_mask : (u y : ℕ) → y < 2 ^ u → bit_and y (2 ^ u - 1) ≡ y
low_mask u y h = let e : 0 * 2 ^ u + y ≡ y = omega arith in rw e at (bit_and_mask u 0 y h)

narrow : (u x : ℕ) → x < 2 ^ (0 + 8 + u) → x / 256 < 2 ^ u
narrow u x h =
    let e : 0 + 8 + u ≡ suc (suc (suc (suc (suc (suc (suc (suc u))))))) = omega arith in
    omega (
      arith,
      rw e at h,
      pow-suc 2 u,
      pow-suc 2 (u + 1),
      pow-suc 2 (u + 2),
      pow-suc 2 (u + 3),
      pow-suc 2 (u + 4),
      pow-suc 2 (u + 5),
      pow-suc 2 (u + 6),
      pow-suc 2 (u + 7),
    )

halved : (s u x : ℕ) → x < 2 ^ (suc s + 8 + u) → x / 2 < 2 ^ (s + 8 + u)
halved s u x h =
    let e : suc s + 8 + u ≡ suc (s + 8 + u) = omega arith in
    omega (arith, rw e at h, pow-suc 2 (s + 8 + u))

joined : (v x : ℕ) → v < 256 → bit_or (x / 256 * 256) (v * 1) ≡ x / 256 * 256 + v
joined v x h = let e : v * 1 ≡ v = omega arith in rw e (bit_or_join 8 (x / 256) v h)

or_clear :
    (s u v x : ℕ)
    → v < 256
    → x < 2 ^ (s + 8 + u)
    → bit_or (bit_and x (mask s (2 ^ u - 1))) (v * 2 ^ s) ≡ put s v x
unfolding mask put
or_clear zero u v x byte fits =
    let high : bit_and (x / 256) (2 ^ u - 1) ≡ x / 256 = low_mask u (x / 256) (narrow u x fits) in
    rw (clear_low 8 x (2 ^ u - 1)) (rw high (joined v x byte))
or_clear (suc s) u v x byte fits =
    let twice : v * 2 ^ suc s ≡ 2 * (v * 2 ^ s) =
      omega (arith, ap (λ (t : ℕ). v * t) (pow-suc 2 s)) in
    let rest = or_clear s u v (x / 2) byte (halved s u x fits) in
    rw (and_odd x (mask s (2 ^ u - 1)))
      (rw twice (or_field _ _ (x % 2) (omega arith) ∙ ap (λ (t : ℕ). t * 2 + x % 2) rest))

-- A byte of a latch of 32 digits and of one of 64, and the latch around it.
pub put_latch32 :
    (n v x : ℕ)
    → n ≤ 2
    → v < 256
    → x < 2 ^ 32
    → put_latch 32 n v x ≡ x / 2 ^ (n * 8 + 8) * 2 ^ (n * 8 + 8) + v * 2 ^ (n * 8) + x % 2 ^ (n * 8)
unfolding put_latch mask put
put_latch32 zero v x small byte fits = or_clear 0 24 v x byte fits ∙ omega arith
put_latch32 (suc zero) v x small byte fits = or_clear 8 16 v x byte fits ∙ omega arith
put_latch32 (suc (suc zero)) v x small byte fits = or_clear 16 8 v x byte fits ∙ omega arith
put_latch32 (suc (suc (suc n))) v x small byte fits = absurd (omega (arith, small))

pub put_latch64 :
    (n v x : ℕ)
    → n ≤ 5
    → v < 256
    → x < 2 ^ 64
    → put_latch 64 n v x ≡ x / 2 ^ (n * 8 + 8) * 2 ^ (n * 8 + 8) + v * 2 ^ (n * 8) + x % 2 ^ (n * 8)
unfolding put_latch mask put
put_latch64 zero v x small byte fits = or_clear 0 56 v x byte fits ∙ omega arith
put_latch64 (suc zero) v x small byte fits = or_clear 8 48 v x byte fits ∙ omega arith
put_latch64 (suc (suc zero)) v x small byte fits = or_clear 16 40 v x byte fits ∙ omega arith
put_latch64 (suc (suc (suc zero))) v x small byte fits = or_clear 24 32 v x byte fits ∙ omega arith
put_latch64 (suc (suc (suc (suc zero)))) v x small byte fits =
    or_clear 32 24 v x byte fits ∙ omega arith
put_latch64 (suc (suc (suc (suc (suc zero))))) v x small byte fits =
    or_clear 40 16 v x byte fits ∙ omega arith
put_latch64 (suc (suc (suc (suc (suc (suc n)))))) v x small byte fits =
    absurd (omega (arith, small))
