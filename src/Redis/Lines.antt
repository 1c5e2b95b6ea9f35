-- ===== src/Redis/Lines.antt =====
-- Lines, numbers and texts that are complete in the buffer.
use eframework.Base.{
  ℕ, ◌+◌, ◌-◌, ◌*◌, ◌≤◌, false, some, List, [], ◌∷◌, ◌++◌, length, All, ◌==◌, ◌≡◌, ◌≢◌, refl, arith,
}
use eframework.Base.Int.{pos, negsuc, plus}
use eframework.Structure.Memory.{done}
use eframework.Redis.{strncpy, find_line, char, read_number}

-- The end of a line.
abbrev pub line_end : List ℕ
line_end = 13 ∷ 10 ∷ []

-- A character of a line, and one of a text without a zero.
abbrev pub IsPlain : ℕ → Type 0
IsPlain c = (c ≢ 0) × (c ≢ 13)

abbrev pub IsDigit : ℕ → Type 0
IsDigit c = (48 ≤ c) × (c ≤ 57)

pub find_line_lem :
    (text rest : List ℕ)
    → All IsPlain text
    → find_line (text ++ (13 ∷ 10 ∷ rest)) ≡ done (some (length text))
unfolding find_line
find_line_lem [] rest h = refl
find_line_lem (c ∷ []) rest (h, hs) = ground arith
find_line_lem (c ∷ d ∷ text) rest (h, hs) =
    let not_zero : (c == 0) ≡ false = ground arith in
    let not_return : (c == 13) ≡ false = ground arith in
    rw (not_zero, not_return, find_line_lem (d ∷ text) rest hs) refl

-- The number that digits stand for, behind others.
abbrev pub value : (n : ℕ) → List ℕ → ℕ
value n [] = n
value n (c ∷ digits) = value (n * 10 + (c - 48)) digits

pub read_number_lem :
    (n : ℕ) (digits rest : List ℕ)
    → All IsDigit digits
    → read_number (pos n) (digits ++ (13 ∷ rest)) ≡ done (pos (value n digits), length digits)
unfolding read_number
read_number_lem n [] rest h = refl
read_number_lem n (c ∷ digits) rest (h, hs) =
    let not_return : (c == 13) ≡ false = ground arith in
    let digit : plus (plus (pos (n * 10)) (char c)) (negsuc 47) ≡ pos (n * 10 + (c - 48)) =
      ground arith in
    rw (not_return, digit, read_number_lem (n * 10 + (c - 48)) digits rest hs) refl

pub strncpy_lem :
    (text rest : List ℕ) → All (λ c. c ≢ 0) text → strncpy (length text) (text ++ rest) ≡ some text
unfolding strncpy
strncpy_lem [] rest h = refl
strncpy_lem (c ∷ text) rest (h, hs) =
    let not_zero : (c == 0) ≡ false = ground arith in rw (not_zero, strncpy_lem text rest hs) refl
