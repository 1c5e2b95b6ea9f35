-- ===== src/Structure/HashTable/Slot.antt =====
-- HASH_OFFSET in src/structure/hashtable.h, for powers of two.
use native.Mathlib.Nat.{
  pow-suc, one-le-pow, pow-le-pow_right, mul_comm, mul_assoc, div-div-eq-div-mul, mod-add-div',
  mod-mod_of_dvd, mod-lt, dvd_refl, dvd-mul_right_of_dvd,
}
use mathlib.Core.Path.{subst}
use Prim.Native.Nat.{◌∣◌}
use eframework.Base.{
  ℕ, zero, suc, ◌+◌, ◌-◌, ◌*◌, ◌/◌, ◌%◌, ◌^◌, ◌≤◌, ◌<◌, ◌≡◌, refl, sym, ◌∙◌, arith, max, bit_or,
  u32_mod,
}
use eframework.Base.Bit.{bit_or_step}
use eframework.Structure.HashTable.{HashTable, slot, size_mask}

or_shift_one :
    (x m m' r : ℕ) → m / 2 ≡ m' → m % 2 ≡ r → bit_or x m ≡ bit_or (x / 2) m' * 2 + max (x % 2) r
or_shift_one x m m' r e b = bit_or_step x m ∙ rw (e, b) refl

mod_halves : (k x : ℕ) → x % 2 ^ suc k ≡ x / 2 % 2 ^ k * 2 + x % 2
mod_halves k x =
    let halves : x / 2 ^ suc k ≡ x / 2 / 2 ^ k =
      rw (pow-suc, mul_comm) (sym (div-div-eq-div-mul x 2 (2 ^ k))) in
    let whole : x / 2 / 2 ^ k * 2 ^ suc k ≡ x / 2 / 2 ^ k * 2 ^ k * 2 =
      rw (pow-suc 2 k) (sym (mul_assoc (x / 2 / 2 ^ k) (2 ^ k) 2)) in
    let long : x % 2 ^ suc k + x / 2 / 2 ^ k * 2 ^ suc k ≡ x =
      rw (← halves) (mod-add-div' x (2 ^ suc k)) in
    omega (arith, long, whole, mod-add-div' (x / 2) (2 ^ k))

-- Setting all bits from `k` on keeps the `k` lowest ones.
set_high : (w k x : ℕ) → x < 2 ^ w → k ≤ w → bit_or x (2 ^ w - 2 ^ k) + 2 ^ k ≡ 2 ^ w + x % 2 ^ k
set_high zero zero zero h p = refl
set_high zero zero (suc x) h p = absurd (omega arith)
set_high zero (suc k) x h p = absurd (omega arith)
set_high (suc w) zero x h p =
    let rest = set_high w zero (x / 2) (omega (arith, pow-suc 2 w)) (omega arith) in
    let step =
      or_shift_one x (2 ^ suc w - 2 ^ 0) (2 ^ w - 2 ^ 0) 1
        (omega (arith, pow-suc 2 w, one-le-pow w 2)) (omega (arith, pow-suc 2 w, one-le-pow w 2)) in
    omega (arith, rest, step, pow-suc 2 w, one-le-pow w 2)
set_high (suc w) (suc k) x h p =
    let rest = set_high w k (x / 2) (omega (arith, pow-suc 2 w)) (omega arith) in
    let step =
      or_shift_one x (2 ^ suc w - 2 ^ suc k) (2 ^ w - 2 ^ k) 0
        (omega (arith, pow-suc 2 w, pow-suc 2 k)) (omega (arith, pow-suc 2 w, pow-suc 2 k)) in
    omega (arith, rest, step, pow-suc 2 w, pow-suc 2 k, mod_halves k x)

pow-dvd : (d k : ℕ) → 2 ^ k ∣ 2 ^ (d + k)
pow-dvd zero k = let same : 0 + k ≡ k = omega arith in rw same (dvd_refl (2 ^ k))
pow-dvd (suc d) k =
    let same : suc d + k ≡ suc (d + k) = omega arith in
    rw (same, pow-suc 2 (d + k)) (dvd-mul_right_of_dvd (2 ^ k) (pow-dvd d k) 2)

low_bits : (k h : ℕ) → k ≤ 32 → h % u32_mod % 2 ^ k ≡ h % 2 ^ k
low_bits k h p =
    let sum : 32 - k + k ≡ 32 = omega arith in
    let divides : 2 ^ k ∣ u32_mod = subst (λ n. 2 ^ k ∣ 2 ^ n) sum (pow-dvd (32 - k) k) in
    mod-mod_of_dvd (2 ^ k) h divides

-- For a table whose capacity is a power of two up to 2 ^ 31 and whose mask belongs to it,
-- HASH_OFFSET gives the rest of the hash by the capacity, counted from the first entry.
pub slot_lem :
    (k h : ℕ) (ht : HashTable)
    → k ≤ 31
    → ht.cap ≡ 2 ^ k
    → ht.sizemask ≡ size_mask ht.cap
    → slot ht h ≡ h % 2 ^ k
unfolding slot
slot_lem k h ht p cap mask =
    let one : 1 ≤ 2 ^ k = one-le-pow k 2 (omega arith) in
    let small : 2 ^ k ≤ 2 ^ 31 = pow-le-pow_right {n = 2} (omega arith) p in
    let masked : ht.sizemask ≡ 2 ^ 32 - 2 ^ k = omega (arith, mask, cap) in
    let high = set_high 32 k (h % u32_mod) (omega arith) (omega arith) in
    let low : h % u32_mod % 2 ^ k ≡ h % 2 ^ k = low_bits k h (omega arith) in
    rw (masked, cap) (omega (arith, high, low, mod-lt h {m = 2 ^ k} one))
