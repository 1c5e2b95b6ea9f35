-- ===== src/Base/Bit.antt =====
-- Single bits of a number, the bits of `bit_or`, and a law of `bit_and`.
use Prim.Native.Nat.{digits, bit_or-bitwise, bit_and-bitwise}
use native.Mathlib.Nat.{pow-suc, mul_comm, div-div-eq-div-mul}
use eframework.Base.{
  ℕ, zero, suc, ◌+◌, ◌*◌, ◌/◌, ◌%◌, ◌^◌, ◌≤◌, ◌<◌, ◌≡◌, refl, sym, max, min, bit_or, bit_and, arith,
}

-- Bit `i` of `x`.
abbrev pub bit : ℕ → ℕ → ℕ
bit x zero = x % 2
bit x (suc i) = bit (x / 2) i

or_fuel : (n m a b : ℕ) → a ≤ n → a ≤ m → digits (λ y. y) max n a b ≡ digits (λ y. y) max m a b
or_fuel zero zero a b p q = refl
or_fuel zero (suc m) zero b p q = refl
or_fuel zero (suc m) (suc a) b p q = absurd (omega arith)
or_fuel (suc n) zero zero b p q = refl
or_fuel (suc n) zero (suc a) b p q = absurd (omega arith)
or_fuel (suc n) (suc m) zero b p q = refl
or_fuel (suc n) (suc m) (suc a) b p q =
    rw (or_fuel n m (suc a / 2) (b / 2) (omega arith) (omega arith))

pub bit_or_step : (a b : ℕ) → bit_or a b ≡ bit_or (a / 2) (b / 2) * 2 + max (a % 2) (b % 2)
bit_or_step zero b = omega (arith, bit_or-bitwise 0 b, bit_or-bitwise 0 (b / 2))
bit_or_step (suc a) b = omega (
  arith,
  bit_or-bitwise (suc a) b,
  bit_or-bitwise (suc a / 2) (b / 2),
  or_fuel a (suc a / 2) (suc a / 2) (b / 2) (omega arith) (omega arith),
)

bit_or-div2 : (a b : ℕ) → bit_or a b / 2 ≡ bit_or (a / 2) (b / 2)
bit_or-div2 a b = omega (arith, bit_or_step a b)

pub bit-bit_or : (i a b : ℕ) → bit (bit_or a b) i ≡ max (bit a i) (bit b i)
bit-bit_or zero a b = omega (arith, bit_or_step a b)
bit-bit_or (suc i) a b = rw (bit_or-div2 a b) (bit-bit_or i (a / 2) (b / 2))

pub bit-le-one : (i x : ℕ) → bit x i ≤ 1
bit-le-one zero x = omega arith
bit-le-one (suc i) x = bit-le-one i (x / 2)

pub bit_or-lt : (w a b : ℕ) → a < 2 ^ w → b < 2 ^ w → bit_or a b < 2 ^ w
bit_or-lt zero zero zero p q = omega arith
bit_or-lt zero zero (suc b) p q = absurd (omega arith)
bit_or-lt zero (suc a) b p q = absurd (omega arith)
bit_or-lt (suc w) a b p q =
    omega
      (arith, bit_or_step a b, pow-suc 2 w, bit_or-lt w (a / 2) (b / 2) (omega arith) (omega arith))

-- Bit `i` of `x >> k`.
pub bit-shift : (k i x : ℕ) → bit (x / 2 ^ k) i ≡ bit x (k + i)
bit-shift zero i x =
    let whole : x / 2 ^ 0 ≡ x = omega arith in
    let same : 0 + i ≡ i = omega arith in rw (whole, same)
bit-shift (suc k) i x =
    let halved : x / 2 ^ suc k ≡ x / 2 / 2 ^ k =
      rw (pow-suc, mul_comm) (sym (div-div-eq-div-mul x 2 (2 ^ k))) in
    let shifted : suc k + i ≡ suc (k + i) = omega arith in
    rw (halved, shifted) (bit-shift k i (x / 2))

-- A number below 2 ^ w whose w bits are all set.
pub eq_of_ones : (w x : ℕ) → x < 2 ^ w → ((i : ℕ) → i < w → bit x i ≡ 1) → x + 1 ≡ 2 ^ w
eq_of_ones zero x h ones = omega arith
eq_of_ones (suc w) x h ones = omega (
  arith,
  pow-suc 2 w,
  ones 0 (omega arith),
  eq_of_ones w (x / 2) (omega (arith, pow-suc 2 w)) (λ i p. ones (suc i) (omega arith)),
)

-- The highest bit.
pub bit_top : (w x : ℕ) → 2 ^ w ≤ x → x < 2 ^ suc w → bit x w ≡ 1
bit_top zero x lo hi = omega (arith, pow-suc 2 0)
bit_top (suc w) x lo hi =
    bit_top w (x / 2) (omega (arith, pow-suc 2 w)) (omega (arith, pow-suc 2 w, pow-suc 2 (suc w)))

and_fuel : (n m a b : ℕ) → a ≤ n → a ≤ m → digits (λ y. 0) min n a b ≡ digits (λ y. 0) min m a b
and_fuel zero zero a b p q = refl
and_fuel zero (suc m) zero b p q = refl
and_fuel zero (suc m) (suc a) b p q = absurd (omega arith)
and_fuel (suc n) zero zero b p q = refl
and_fuel (suc n) zero (suc a) b p q = absurd (omega arith)
and_fuel (suc n) (suc m) zero b p q = refl
and_fuel (suc n) (suc m) (suc a) b p q =
    rw (and_fuel n m (suc a / 2) (b / 2) (omega arith) (omega arith))

pub bit_and_step : (a b : ℕ) → bit_and a b ≡ bit_and (a / 2) (b / 2) * 2 + min (a % 2) (b % 2)
bit_and_step zero b = omega (arith, bit_and-bitwise 0 b, bit_and-bitwise 0 (b / 2))
bit_and_step (suc a) b = omega (
  arith,
  bit_and-bitwise (suc a) b,
  bit_and-bitwise (suc a / 2) (b / 2),
  and_fuel a (suc a / 2) (suc a / 2) (b / 2) (omega arith) (omega arith),
)

-- A mask that meets no bit of `b | c` meets none of `b`.
meets_fuel : (n a b c : ℕ) → a ≤ n → bit_and a (bit_or b c) ≡ 0 → bit_and a b ≡ 0
meets_fuel n zero b c p e = omega (arith, bit_and-bitwise 0 b)
meets_fuel zero (suc a) b c p e = absurd (omega arith)
meets_fuel (suc n) (suc a) b c p e =
    let low = bit_or_step b c in
    let step = bit_and_step (suc a) (bit_or b c) in
    let rest : bit_and (suc a / 2) (bit_or (b / 2) (c / 2)) ≡ 0 =
      rw (← bit_or-div2 b c) (omega arith) in
    omega
      (arith, bit_and_step (suc a) b, meets_fuel n (suc a / 2) (b / 2) (c / 2) (omega arith) rest)

pub bit_and-zero_of_or : (a b c : ℕ) → bit_and a (bit_or b c) ≡ 0 → bit_and a b ≡ 0
bit_and-zero_of_or a b c = meets_fuel a a b c (omega arith)
