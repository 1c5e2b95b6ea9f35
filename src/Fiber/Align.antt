-- ===== src/Fiber/Align.antt =====
-- Alignment in src/fiber.c: rounding down to a page by clearing bits.
use native.Mathlib.Nat.{pow-suc, mul_comm, mul_assoc, div-div-eq-div-mul, one-le-pow}
use Prim.Native.Nat.{bit_and-bitwise}
use eframework.Base.{
  ℕ, zero, suc, ◌+◌, ◌-◌, ◌*◌, ◌/◌, ◌%◌, ◌^◌, ◌≤◌, ◌<◌, ◌≡◌, refl, sym, ◌∙◌, arith, min, size_mod,
  bit_and,
}
use eframework.Base.Bit.{bit_and_step}
use eframework.Fiber.{align_down}

-- One bit more on the right of both numbers.
and_shift :
    (x m m' r : ℕ) → m / 2 ≡ m' → m % 2 ≡ r → bit_and x m ≡ bit_and (x / 2) m' * 2 + min (x % 2) r
and_shift x m m' r e b = bit_and_step x m ∙ rw (e, b) refl

clear_low : (w k x : ℕ) → x < 2 ^ w → k ≤ w → bit_and x (2 ^ w - 2 ^ k) ≡ x / 2 ^ k * 2 ^ k
clear_low zero zero zero h p = omega (arith, bit_and-bitwise 0 0)
clear_low zero zero (suc x) h p = absurd (omega arith)
clear_low zero (suc k) x h p = absurd (omega arith)
clear_low (suc w) zero x h p =
    let rest = clear_low w zero (x / 2) (omega (arith, pow-suc 2 w)) (omega arith) in
    let step =
      and_shift x (2 ^ suc w - 2 ^ 0) (2 ^ w - 2 ^ 0) 1 (omega (arith, pow-suc 2 w, one-le-pow w 2))
        (omega (arith, pow-suc 2 w, one-le-pow w 2)) in
    omega (arith, rest, step)
clear_low (suc w) (suc k) x h p =
    let rest = clear_low w k (x / 2) (omega (arith, pow-suc 2 w)) (omega arith) in
    let step =
      and_shift x (2 ^ suc w - 2 ^ suc k) (2 ^ w - 2 ^ k) 0
        (omega (arith, pow-suc 2 w, pow-suc 2 k)) (omega (arith, pow-suc 2 w, pow-suc 2 k)) in
    let halves : x / 2 ^ suc k ≡ x / 2 / 2 ^ k =
      rw (pow-suc, mul_comm) (sym (div-div-eq-div-mul x 2 (2 ^ k))) in
    let whole : x / 2 / 2 ^ k * 2 ^ suc k ≡ x / 2 / 2 ^ k * 2 ^ k * 2 =
      rw (pow-suc 2 k) (sym (mul_assoc (x / 2 / 2 ^ k) (2 ^ k) 2)) in
    rw halves (omega (arith, rest, step, whole))

-- The low bits are the rest of the division by the page size.
pub align_down_lem : (k x : ℕ) → k ≤ 64 → x < size_mod → align_down (2 ^ k) x ≡ x / 2 ^ k * 2 ^ k
unfolding align_down
align_down_lem k x p h =
    let mask : size_mod - 1 - (2 ^ k - 1) ≡ 2 ^ 64 - 2 ^ k = omega (arith, one-le-pow k 2) in
    rw mask (clear_low 64 k x h p)
