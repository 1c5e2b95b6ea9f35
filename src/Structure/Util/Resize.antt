-- ===== src/Structure/Util/Resize.antt =====
-- What ef_resize and hash_recap compute, as powers of two.
use native.Mathlib.Nat.{pow-suc, pow-le-pow_right}
use native.Mathlib.Decide.{dec_le}
use eframework.Base.{
  ℕ, zero, suc, ◌+◌, ◌-◌, ◌/◌, ◌^◌, ◌≤◌, ◌<◌, ◌≡◌, ◌⊎◌, inl, inr, max, arith, ltb, if◌then◌else◌,
  sub_size,
}
use eframework.Structure.Util.{or_shift, smear32, smear64, resize, hash_recap}
use eframework.Base.Bit.{bit, bit-bit_or, bit-le-one, bit_or-lt, bit-shift, eq_of_ones, bit_top}

-- The bits `lo` to `w - 1` of `x` are set, and none above.
record OnesFrom (lo w x : ℕ) : Type 0 where
  small : x < 2 ^ w
  ones : (i : ℕ) → lo ≤ i → i < w → bit x i ≡ 1

or_shift-lt : (k w x : ℕ) → x < 2 ^ w → or_shift k x < 2 ^ w
unfolding or_shift
or_shift-lt k w x h = bit_or-lt w x (x / 2 ^ k) h (omega arith)

bit-or_shift : (k x i : ℕ) → bit (or_shift k x) i ≡ max (bit x i) (bit x (k + i))
unfolding or_shift
bit-or_shift k x i = rw (bit-bit_or, bit-shift)

-- Each smear doubles the run of ones below the highest bit.
double : (m w x : ℕ) → OnesFrom (w - m) w x → OnesFrom (w - (m + m)) w (or_shift m x)
double m w x run = record {
  small = or_shift-lt m w x run.small;
  ones = λ i lo hi. elim (dec_le (w - m) i) [
    | yes p ↦ omega (arith, bit-or_shift m x i, run.ones i p hi, bit-le-one (m + i) x)
    | no p ↦
        omega
          (arith, bit-or_shift m x i, run.ones (m + i) (omega arith) (omega arith), bit-le-one i x)
  ];
}

start : (w x : ℕ) → x < 2 ^ w → 2 ^ w ≤ x + x + 1 → OnesFrom (w - 1) w x
start zero x h k = record { small = h; ones = λ i lo hi. absurd (omega arith) }
start (suc w) x h k = record {
  small = h;
  ones =
      λ i lo hi. let e : i ≡ w = omega arith in rw e (bit_top w x (omega (arith, pow-suc 2 w)) h);
}

all_ones : (w x : ℕ) → OnesFrom 0 w x → x + 1 ≡ 2 ^ w
all_ones w x run = eq_of_ones w x run.small (λ i h. run.ones i (omega arith) h)

smear32-Ones : (w x : ℕ) → x < 2 ^ w → 2 ^ w ≤ x + x + 1 → OnesFrom (w - 32) w (smear32 x)
unfolding smear32
smear32-Ones w x h k =
    double 16 w _ (double 8 w _ (double 4 w _ (double 2 w _ (double 1 w x (start w x h k)))))

smear64-eq : (w x : ℕ) → w ≤ 64 → x < 2 ^ w → 2 ^ w ≤ x + x + 1 → smear64 x + 1 ≡ 2 ^ w
unfolding smear64
smear64-eq w x fits h k =
    let run = double 32 w (smear32 x) (smear32-Ones w x h k) in
    all_ones w _ (record { small = run.small; ones = λ i lo hi. run.ones i (omega arith) hi })

smear32-eq : (w x : ℕ) → w ≤ 32 → x < 2 ^ w → 2 ^ w ≤ x + x + 1 → smear32 x + 1 ≡ 2 ^ w
smear32-eq w x fits h k =
    let run = smear32-Ones w x h k in
    all_ones w _ (record { small = run.small; ones = λ i lo hi. run.ones i (omega arith) hi })

-- Between `n` and `2 n` lies a power of two.
pub power_above : (n : ℕ) → 1 ≤ n → (w : ℕ) × (n ≤ 2 ^ w) × (2 ^ w < n + n)
power_above zero h = absurd (omega arith)
power_above (suc zero) h = (0, omega arith, omega arith)
power_above (suc (suc n)) h =
    let (w, lo, hi) = power_above (suc n) (omega arith) in
    elim (dec_le (suc (suc n)) (2 ^ w)) [
      | yes p ↦ (w, p, omega arith)
      | no p ↦ (suc w, omega (arith, pow-suc 2 w), omega (arith, pow-suc 2 w))
    ]

exponent-le : (k w : ℕ) → 2 ^ w < 2 ^ suc k → w ≤ k
exponent-le k w h = elim (dec_le w k) [
  | yes p ↦ p
  | no p ↦
      absurd
        (omega (arith, pow-le-pow_right {n = 2} (omega arith) {i = suc k} {j = w} (omega arith)))
]

-- The size that is rounded: the larger of `size` and `min_size`.
abbrev pub wanted : ℕ → ℕ → ℕ
wanted size min_size = if ltb size min_size then min_size else size

-- From 1 to 2 ^ 63, `ef_resize` returns the least power of two that is at least the wanted size,
-- which is the larger of its arguments.
pub resize_least :
    (size min_size : ℕ)
    → 1 ≤ wanted size min_size
    → wanted size min_size ≤ 2 ^ 63
    → (w : ℕ) × (resize size min_size ≡ 2 ^ w)
      × (wanted size min_size ≤ resize size min_size)
      × (resize size min_size < wanted size min_size + wanted size min_size)
unfolding resize
resize_least size min_size lo hi =
    let n : ℕ = wanted size min_size in
    let (w, above, below) = power_above n lo in
    let fits : w ≤ 63 = exponent-le 63 w (omega arith) in
    let less : sub_size n 1 ≡ n - 1 = omega arith in
    let smeared : smear64 (n - 1) + 1 ≡ 2 ^ w =
      smear64-eq w (n - 1) (omega arith) (omega arith) (omega arith) in
    let bound : 2 ^ w ≤ 2 ^ 63 = pow-le-pow_right {n = 2} (omega arith) {i = w} {j = 63} fits in
    let value : resize size min_size ≡ 2 ^ w = rw less (omega arith) in
    (w, value, omega arith, omega arith)

-- Without a least size, as the buffers call it.
pub resize-bounds : (n : ℕ) → 1 ≤ n → n ≤ 2 ^ 63 → (n ≤ resize n 0) × (resize n 0 ≤ 2 ^ 63)
resize-bounds n lo hi =
    let same : wanted n 0 ≡ n = ground arith in
    let (w, value, above, below) = resize_least n 0 (omega arith) (omega arith) in
    let fits : w ≤ 63 = exponent-le 63 w (omega arith) in
    let bound : 2 ^ w ≤ 2 ^ 63 = pow-le-pow_right {n = 2} (omega arith) {i = w} {j = 63} fits in
    (omega arith, omega arith)

-- Up to 2 ^ 31, `hash_recap` returns a power of two that is at least 8 and at least the capacity;
-- it is 8, or less than twice the capacity.
pub hash_recap_least :
    (cap : ℕ)
    → cap ≤ 2 ^ 31
    → (w : ℕ) × (hash_recap cap ≡ 2 ^ w)
      × (cap ≤ hash_recap cap)
      × (8 ≤ hash_recap cap)
      × ((hash_recap cap ≡ 8) ⊎ (hash_recap cap < cap + cap))
unfolding hash_recap
hash_recap_least cap hi = elim (dec_le cap 8) [
  | yes p ↦ (3, ground arith, ground arith, ground arith, inl (ground arith))
  | no p ↦
      let (w, above, below) = power_above cap (omega arith) in
      let fits : w ≤ 31 = exponent-le 31 w (omega arith) in
      let smeared : smear32 (cap - 1) + 1 ≡ 2 ^ w =
        smear32-eq w (cap - 1) (omega arith) (omega arith) (omega arith) in
      let bound : 2 ^ w ≤ 2 ^ 31 = pow-le-pow_right {n = 2} (omega arith) {i = w} {j = 31} fits in
      let value : hash_recap cap ≡ 2 ^ w = ground arith in
      (w, value, omega arith, omega arith, inr (omega arith))
]
