-- ===== src/Basic.antt =====
-- src/basic/basic.c: conversions between numbers and text. Overflow of `long` is outside of the model.
pub mod Decimal
pub mod Lower
mod Tests
use eframework.Base.{
  ℕ, zero, suc, ◌+◌, ◌-◌, ◌*◌, ◌/◌, ◌%◌, Bool, true, false, ◌&&◌, List, [], ◌∷◌, ◌++◌, ltb, leb,
  ◌==◌, if◌then◌else◌,
}
use eframework.Base.Int.{ℤ, pos, negsuc, negative, difference, scale, plus, negate}
use eframework.Structure.Memory.{Outcome, done, fault, unfinished}

-- The loop of `int2str` that counts the digits, in a number of rounds.
unfoldable pub count_digits : (rounds : ℕ) → ℕ → ℕ
count_digits zero m = 0
count_digits (suc rounds) m =
    let rest = count_digits rounds (m / 10) in if ltb 0 m then suc rest else 0

-- The loop that writes the digits from the last one on, in front of `text`.
unfoldable pub write_digits : (len n : ℕ) → (text : List ℕ) → List ℕ
write_digits zero n text = text
write_digits (suc len) n text = write_digits len (n / 10) ((48 + n % 10) ∷ text)

-- `int2str`: the text before the zero byte; `text_ok` says whether the memory is granted.
unfoldable pub int2str : (text_ok : Bool) → ℤ → List ℕ
int2str text_ok (pos zero) = 48 ∷ []
int2str text_ok (pos (suc n)) =
    if text_ok then write_digits (count_digits (suc n) (suc n)) (suc n) [] else []
int2str text_ok (negsuc n) = []

-- `*s - '0'`, where a `char` is signed.
abbrev pub digit_value : ℕ → ℤ
digit_value c = if ltb c 128 then difference c 48 else negative (304 - c)

-- The loop of `str2int` and of `hexstr2int`: `left` characters, in base `base`.
unfoldable pub parse_digits : (base left : ℕ) → (s : List ℕ) → ℤ → Outcome ℤ
parse_digits base zero s n = done n
parse_digits base (suc left) [] n = fault
parse_digits base (suc left) (c ∷ s) n =
    parse_digits base left s (plus (scale n base) (digit_value c))

abbrev pub negated : Outcome ℤ → Outcome ℤ
negated (done n) = done (negate n)
negated fault = fault
negated unfinished = unfinished

-- Both of them, on the characters from `s` on.
unfoldable pub parse_number : (base : ℕ) → (s : List ℕ) → (len : ℕ) → Outcome ℤ
parse_number base [] len = fault
parse_number base (c ∷ s) len =
    if c == 45
    then negated (parse_digits base (len - 1) s (pos 0))
    else parse_digits base len (c ∷ s) (pos 0)

-- `str2int`.
unfoldable pub str2int : (s : List ℕ) → (len : ℕ) → Outcome ℤ
str2int s len = parse_number 10 s len

-- `hexstr2int`.
unfoldable pub hexstr2int : (s : List ℕ) → (len : ℕ) → Outcome ℤ
hexstr2int s len = parse_number 16 s len

-- `strtolower`.
unfoldable pub lower_char : ℕ → ℕ
lower_char c = if leb 65 c && leb c 90 then 97 + (c - 65) else c

unfoldable pub strtolower : (s : List ℕ) → (len : ℕ) → Outcome (List ℕ)
strtolower s zero = done s
strtolower [] (suc len) = fault
strtolower (c ∷ s) (suc len) = elim (strtolower s len) [
  | done s' ↦ done (lower_char c ∷ s')
  | fault ↦ fault
  | unfinished ↦ unfinished
]
