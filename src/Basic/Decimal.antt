-- ===== src/Basic/Decimal.antt =====
-- Decimal text: int2str and back by str2int, and hexadecimal letters.
use native.Mathlib.Nat.{pow-suc}
use eframework.Base.{
  ℕ, zero, suc, ◌+◌, ◌-◌, ◌*◌, ◌/◌, ◌%◌, ◌^◌, ◌≤◌, ◌<◌, ◌≡◌, refl, ap, ◌∙◌, inl, inr, true, false,
  List, [], ◌∷◌, ◌++◌, length, All, arith, ltb, ◌==◌, Bool-cases,
}
use eframework.Base.Int.{pos}
use eframework.Structure.Memory.{done}
use eframework.Basic.{
  digit_value, count_digits, write_digits, int2str, parse_digits, parse_number, str2int, hexstr2int,
}

-- The number that digits stand for, behind a number `n`.
unfoldable pub decimal : ℕ → List ℕ → ℕ
decimal n [] = n
decimal n (c ∷ text) = decimal (n * 10 + (c - 48)) text

abbrev pub IsDigit : ℕ → Type 0
IsDigit c = (48 ≤ c) × (c ≤ 57)

-- As many rounds as the number are enough, and the digits suffice for it.
count_digits-bound : (rounds n : ℕ) → n ≤ rounds → n < 10 ^ count_digits rounds n
unfolding count_digits
count_digits-bound zero n h = omega arith
count_digits-bound (suc rounds) n h = elim (Bool-cases (ltb 0 n)) [
  | inr none_left ↦ rw none_left (ground arith)
  | inl more ↦
      let rest = count_digits-bound rounds (n / 10) (omega arith) in
      rw more (omega (arith, rest, pow-suc 10 (count_digits rounds (n / 10))))
]

decimal-write_digits :
    (len n : ℕ) (text : List ℕ)
    → n < 10 ^ len
    → decimal 0 (write_digits len n text) ≡ decimal n text
unfolding write_digits decimal
decimal-write_digits zero n text h = ap (λ m. decimal m text) (omega arith)
decimal-write_digits (suc len) n text h =
    let rest =
      decimal-write_digits len (n / 10) ((48 + n % 10) ∷ text) (omega (arith, pow-suc 10 len)) in
    let whole : n / 10 * 10 + (48 + n % 10 - 48) ≡ n = omega arith in
    rest ∙ ap (λ m. decimal m text) whole

write_digits-All :
    (len n : ℕ) (text : List ℕ) → All IsDigit text → All IsDigit (write_digits len n text)
unfolding write_digits
write_digits-All zero n text a = a
write_digits-All (suc len) n text a =
    write_digits-All len (n / 10) ((48 + n % 10) ∷ text) ((omega arith, omega arith), a)

-- Digits are read as the number that they stand for; what follows is not read.
parse_digits-decimal :
    (text rest : List ℕ) (n : ℕ)
    → All IsDigit text
    → parse_digits 10 (length text) (text ++ rest) (pos n) ≡ done (pos (decimal n text))
unfolding parse_digits decimal
parse_digits-decimal [] rest n a = refl
parse_digits-decimal (c ∷ text) rest n ((lo, hi), a) =
    let digit : digit_value c ≡ pos (c - 48) = ground arith in
    rw digit (parse_digits-decimal text rest (n * 10 + (c - 48)) a)

str2int-decimal :
    (text rest : List ℕ)
    → 1 ≤ length text
    → All IsDigit text
    → str2int (text ++ rest) (length text) ≡ done (pos (decimal 0 text))
unfolding str2int parse_number
str2int-decimal [] rest h a = absurd (omega arith)
str2int-decimal (c ∷ text) rest h a =
    let no_sign : (c == 45) ≡ false = ground (arith, a.0.0) in
    rw no_sign (parse_digits-decimal (c ∷ text) rest 0 a)

length-write_digits :
    (len n : ℕ) (text : List ℕ) → length (write_digits len n text) ≡ len + length text
unfolding write_digits
length-write_digits zero n text = omega arith
length-write_digits (suc len) n text =
    omega (arith, length-write_digits len (n / 10) ((48 + n % 10) ∷ text))

count_digits-pos : (n : ℕ) → 1 ≤ count_digits (suc n) (suc n)
unfolding count_digits
count_digits-pos n = ground arith

-- `str2int` of the text that `int2str` makes of a number that is not negative, if the memory for
-- the text is granted, gives the number back, whatever follows the text.
pub str2int-int2str :
    (n : ℕ) (rest : List ℕ)
    → let text = int2str true (pos n) in str2int (text ++ rest) (length text) ≡ done (pos n)
unfolding int2str decimal
str2int-int2str zero rest =
    str2int-decimal (48 ∷ []) rest (omega arith) ((omega arith, omega arith), tt)
str2int-int2str (suc n) rest =
    let len = count_digits (suc n) (suc n) in
    let text = write_digits len (suc n) [] in
    let enough = count_digits-bound (suc n) (suc n) (omega arith) in
    let some_digit : 1 ≤ length text =
      omega (arith, length-write_digits len (suc n) [], count_digits-pos n) in
    str2int-decimal text rest some_digit (write_digits-All len (suc n) [] tt)
    ∙ ap (λ m. done (pos m)) (decimal-write_digits len (suc n) [] enough)

-- `hexstr2int` reads each of the letters a to f as a number that is 39 too large: a as 49, b as
-- 50, and so on.
pub hexstr2int-letter :
    (k : ℕ) (rest : List ℕ) → k < 6 → hexstr2int ((97 + k) ∷ rest) 1 ≡ done (pos (49 + k))
unfolding hexstr2int parse_number parse_digits
hexstr2int-letter k rest h =
    let no_sign : (97 + k == 45) ≡ false = ground arith in
    let letter : digit_value (97 + k) ≡ pos (49 + k) = ground arith in
    rw (no_sign, letter) (ap (λ m. done (pos m)) (omega arith))
