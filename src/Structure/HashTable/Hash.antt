-- ===== src/Structure/HashTable/Hash.antt =====
-- hash_func in src/structure/hashtable.c, without the unrolling.
use eframework.Base.{
  ℕ, zero, suc, ◌+◌, ◌*◌, ◌/◌, ◌%◌, ◌^◌, ◌≤◌, ◌<◌, ◌≡◌, refl, ap, ◌∙◌, List, [], ◌∷◌, length, arith,
  max, bit_or, size_mod, add_size, mul_size,
}
use native.Mathlib.Nat.{pow-suc}
use eframework.Base.Bit.{bit_or-lt, bit_or_step}
use eframework.Structure.HashTable.{
  char_value, eight_bytes, hash_step, fall_through, unrolled, hash_func,
}

-- Bernstein's hash, one byte at a time.
unfoldable pub times_33 : ℕ → List ℕ → ℕ
times_33 hash [] = hash
times_33 hash (c ∷ str) = times_33 ((hash * 33 + char_value c) % size_mod) str

step_wraps :
    (hash v : ℕ) → add_size (add_size (mul_size hash 32) hash) v ≡ (hash * 33 + v) % size_mod
step_wraps hash v = omega arith

hash_step_lem : (hash c : ℕ) → hash_step hash c ≡ (hash * 33 + char_value c) % size_mod
unfolding hash_step
hash_step_lem hash c = step_wraps hash (char_value c)

fall_through_lem :
    (hash : ℕ) (str : List ℕ) → fall_through (length str) hash str ≡ times_33 hash str
unfolding fall_through times_33
fall_through_lem hash [] = refl
fall_through_lem hash (c ∷ str) =
    fall_through_lem (hash_step hash c) str ∙ ap (λ h. times_33 h str) (hash_step_lem hash c)

eight_steps :
    (hash a b c d e f g h : ℕ) (str : List ℕ)
    → times_33 (eight_bytes hash a b c d e f g h) str
      ≡ times_33 hash (a ∷ b ∷ c ∷ d ∷ e ∷ f ∷ g ∷ h ∷ str)
unfolding times_33
eight_steps hash a b c d e f g h str =
    rw
      (
        hash_step_lem hash a,
        hash_step_lem _ b,
        hash_step_lem _ c,
        hash_step_lem _ d,
        hash_step_lem _ e,
        hash_step_lem _ f,
        hash_step_lem _ g,
        hash_step_lem _ h,
      )
      refl

-- Unrolling the loop and falling through the cases computes the same.
unrolled_lem : (hash : ℕ) (str : List ℕ) → unrolled hash str ≡ times_33 hash str
unfolding unrolled times_33 fall_through
unrolled_lem hash [] = refl
unrolled_lem hash (a ∷ []) = fall_through_lem hash (a ∷ [])
unrolled_lem hash (a ∷ b ∷ []) = fall_through_lem hash (a ∷ b ∷ [])
unrolled_lem hash (a ∷ b ∷ c ∷ []) = fall_through_lem hash (a ∷ b ∷ c ∷ [])
unrolled_lem hash (a ∷ b ∷ c ∷ d ∷ []) = fall_through_lem hash (a ∷ b ∷ c ∷ d ∷ [])
unrolled_lem hash (a ∷ b ∷ c ∷ d ∷ e ∷ []) = fall_through_lem hash (a ∷ b ∷ c ∷ d ∷ e ∷ [])
unrolled_lem hash (a ∷ b ∷ c ∷ d ∷ e ∷ f ∷ []) = fall_through_lem hash (a ∷ b ∷ c ∷ d ∷ e ∷ f ∷ [])
unrolled_lem hash (a ∷ b ∷ c ∷ d ∷ e ∷ f ∷ g ∷ []) =
    fall_through_lem hash (a ∷ b ∷ c ∷ d ∷ e ∷ f ∷ g ∷ [])
unrolled_lem hash (a ∷ b ∷ c ∷ d ∷ e ∷ f ∷ g ∷ h ∷ str) =
    unrolled_lem (eight_bytes hash a b c d e f g h) str ∙ eight_steps hash a b c d e f g h str

times_33-lt : (hash : ℕ) (str : List ℕ) → hash < size_mod → times_33 hash str < size_mod
unfolding times_33
times_33-lt hash [] h = h
times_33-lt hash (c ∷ str) h = times_33-lt ((hash * 33 + char_value c) % size_mod) str (omega arith)

or_top-ge : (w a : ℕ) → 2 ^ w ≤ bit_or a (2 ^ w)
or_top-ge zero a = omega (arith, bit_or_step a 1)
or_top-ge (suc w) a =
    let half : 2 ^ suc w / 2 ≡ 2 ^ w = omega (arith, pow-suc 2 w) in
    let step : bit_or a (2 ^ suc w) ≡ bit_or (a / 2) (2 ^ w) * 2 + max (a % 2) (2 ^ suc w % 2) =
      bit_or_step a (2 ^ suc w) ∙ rw half refl in
    omega (arith, step, or_top-ge w (a / 2), pow-suc 2 w)

-- `hash_func`, unrolled eight times and with a `switch` that falls through, is the hash that
-- multiplies by 33 and adds the next byte, with the highest bit set; it fits 64 bits and is never
-- 0.
pub hash_func_lem :
    (str : List ℕ)
    → (hash_func str ≡ bit_or (times_33 5381 str) (2 ^ 63))
      × ((2 ^ 63 ≤ hash_func str) × (hash_func str < size_mod))
unfolding hash_func
hash_func_lem str = (
  ap (λ h. bit_or h (2 ^ 63)) (unrolled_lem 5381 str),
  (
    or_top-ge 63 (unrolled 5381 str),
    bit_or-lt 64 (unrolled 5381 str) (2 ^ 63)
        (rw (unrolled_lem 5381 str) (times_33-lt 5381 str (omega arith))) (omega arith),
  ),
)
