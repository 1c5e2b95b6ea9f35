-- ===== src/FastCgi/Params/Encoded.antt =====
-- Parameters as the FastCGI protocol encodes them, and reading them back.
use eframework.Base.{
  ℕ, zero, suc, ◌+◌, ◌-◌, ◌*◌, ◌/◌, ◌%◌, ◌^◌, ◌≤◌, ◌<◌, true, false, Option, none, some, List, [],
  ◌∷◌, ◌++◌, length, length-append, drop-append, take-append_le, take_all, All, ltb, leb, ◌==◌,
  if◌then◌else◌, bit_and, bit_or, ◌≡◌, refl, ap, ◌∙◌, inl, inr, arith, Bool-cases, append_assoc,
  ◌≢◌,
}
use eframework.Base.Bit.{bit_or_step}
use eframework.Base.Checked.{checked, checked-all}
use native.Mathlib.Nat.{pow-suc}
use eframework.Structure.Memory.{done, read_at}
use eframework.FastCgi.Params.{
  Param, long_length, read_length, read_value, read_name, read_param, with_param, parse,
  parse_params,
}

bit_or_zero : (n a : ℕ) → a ≤ n → bit_or a 0 ≡ a
bit_or_zero zero zero h = refl
bit_or_zero zero (suc a) h = absurd (omega arith)
bit_or_zero (suc n) a h = omega (arith, bit_or_step a 0, bit_or_zero n (a / 2) (omega arith))

-- A number whose low bits are free, and one that fits them.
bit_or-disjoint : (k a b : ℕ) → b < 2 ^ k → bit_or (a * 2 ^ k) b ≡ a * 2 ^ k + b
bit_or-disjoint zero a b h =
    let none_left : b ≡ 0 = omega arith in
    rw none_left (bit_or_zero (a * 2 ^ 0) (a * 2 ^ 0) (omega arith) ∙ omega arith)
bit_or-disjoint (suc k) a b h =
    let double : a * 2 ^ suc k ≡ a * 2 ^ k * 2 =
      omega (arith, ap (λ (t : ℕ). a * t) (pow-suc 2 k)) in
    let half : a * 2 ^ k * 2 / 2 ≡ a * 2 ^ k = omega arith in
    let step = bit_or_step (a * 2 ^ k * 2) b in
    let rest = bit_or-disjoint k a (b / 2) (omega (arith, pow-suc 2 k)) in
    rw double (omega (arith, rw half at step, rest))

seven_bits : (b : ℕ) → b < 128 → bit_and (b + 128) 0x7f ≡ b
unfolding checked
seven_bits b h = ground (arith, checked-all (λ i. bit_and (i + 128) 0x7f == i) 128 b refl h)

-- The protocol's encoding of a length below 2 ^ 31.
abbrev pub encode_length : ℕ → List ℕ
encode_length n =
    if ltb n 128
    then n ∷ []
    else (n / 2 ^ 24 + 128) ∷ (n / 2 ^ 16 % 256) ∷ (n / 2 ^ 8 % 256) ∷ (n % 256) ∷ []

long_length_lem :
    (n : ℕ) (rest : List ℕ)
    → n < 2 ^ 31
    → long_length (n / 2 ^ 24 + 128) ((n / 2 ^ 16 % 256) ∷ (n / 2 ^ 8 % 256) ∷ (n % 256) ∷ rest)
      ≡ some (n, rest)
unfolding long_length
long_length_lem n rest h =
    let top = seven_bits (n / 2 ^ 24) (omega arith) in
    let a = bit_or-disjoint 24 (n / 2 ^ 24) (n / 2 ^ 16 % 256 * 2 ^ 16) (omega arith) in
    let b = bit_or-disjoint 16 (n / 2 ^ 16) (n / 2 ^ 8 % 256 * 2 ^ 8) (omega arith) in
    let c = bit_or-disjoint 8 (n / 2 ^ 8) (n % 256) (omega arith) in
    let e : n / 2 ^ 24 * 2 ^ 24 + n / 2 ^ 16 % 256 * 2 ^ 16 ≡ n / 2 ^ 16 * 2 ^ 16 = omega arith in
    let f : n / 2 ^ 16 * 2 ^ 16 + n / 2 ^ 8 % 256 * 2 ^ 8 ≡ n / 2 ^ 8 * 2 ^ 8 = omega arith in
    let g : n / 2 ^ 8 * 2 ^ 8 + n % 256 ≡ n = omega arith in rw (top, a, e, b, f, c, g) refl

pub read_length-encode_length :
    (n : ℕ) (rest : List ℕ) → n < 2 ^ 31 → read_length (encode_length n ++ rest) ≡ some (n, rest)
unfolding read_length
read_length-encode_length n rest h = elim (Bool-cases (ltb n 128)) [
  | inl short ↦ rw short (ground arith)
  | inr long ↦
      let big : leb 128 (n / 2 ^ 24 + 128) ≡ true = ground arith in
      rw (long, big) (long_length_lem n rest h)
]

-- A parameter, with a value of no byte for NULL.
abbrev pub value_of : Param → List ℕ
value_of p = elim p.value [ none ↦ [] | some v ↦ v ]

abbrev pub encode : Param → List ℕ
encode p =
    encode_length (length p.name) ++ (encode_length (length (value_of p)) ++ (p.name ++ value_of p))

abbrev pub encode_all : List Param → List ℕ
encode_all [] = []
encode_all (p ∷ ps) = encode p ++ encode_all ps

-- Lengths that the encoding can hold, and no value that is empty without being NULL.
abbrev pub IsEncodable : Param → Type 0
IsEncodable p = (length p.name < 2 ^ 31) × (length (value_of p) < 2 ^ 31) × (p.value ≢ some [])

read_at-front : (bytes rest : List ℕ) → read_at (bytes ++ rest) 0 (length bytes) ≡ some bytes
unfolding read_at
read_at-front bytes rest =
    let fits : leb (0 + length bytes) (length (bytes ++ rest)) ≡ true =
      ground (arith, length-append bytes rest) in
    rw fits (
      ap some (
        take-append_le (length bytes) bytes rest (omega arith)
        ∙ take_all (length bytes) bytes (omega arith)))

read_value_lem :
    (name : List ℕ) (value : Option (List ℕ)) (rest : List ℕ)
    → value ≢ some []
    → read_value name
        (length (value_of (record { name = name; value = value })))
        (value_of (record { name = name; value = value }) ++ rest)
      ≡ some (record { name = name; value = value }, rest)
unfolding read_value
read_value_lem name none rest h = refl
read_value_lem name (some []) rest h = absurd (h refl)
read_value_lem name (some (b ∷ v)) rest h =
    let more : (suc (length v) == 0) ≡ false = ground arith in
    rw (more, read_at-front (b ∷ v) rest, drop-append (b ∷ v) rest) refl

read_param-encode :
    (p : Param) (rest : List ℕ) → IsEncodable p → read_param (encode p ++ rest) ≡ some (p, rest)
unfolding read_param read_name
read_param-encode p rest (n, v, h) =
    let name_len =
      read_length-encode_length (length p.name)
        (encode_length (length (value_of p)) ++ (p.name ++ (value_of p ++ rest))) n in
    let value_len =
      read_length-encode_length (length (value_of p)) (p.name ++ (value_of p ++ rest)) v in
    let name = read_at-front p.name (value_of p ++ rest) in
    rw (append_assoc, append_assoc, append_assoc)
      (rw (name_len, read_param)
        (rw value_len (
          rw (name, read_name)
            (rw (drop-append p.name (value_of p ++ rest)) (read_value_lem p.name p.value rest h)))))

pub length-encode_length : (n : ℕ) → 1 ≤ length (encode_length n)
length-encode_length n = ground arith

length-encode : (p : Param) → 2 ≤ length (encode p)
length-encode p =
    let name_len = length-encode_length (length p.name) in
    let value_len = length-encode_length (length (value_of p)) in
    rw (length-append, length-append) (omega (arith, name_len, value_len))

pub parse_step :
    (rounds left : ℕ) (ptr : List ℕ) (p : Param) (behind : List ℕ)
    → read_param ptr ≡ some (p, behind)
    → parse (suc rounds) (suc left) ptr
      ≡ with_param p (parse rounds (suc left - (length ptr - length behind)) behind)
unfolding parse
parse_step rounds left ptr p behind e = rw (e, parse) refl

parse-encode_all :
    (ps : List Param) (rounds left : ℕ) (behind : List ℕ)
    → left ≡ length (encode_all ps)
    → left ≤ rounds
    → All IsEncodable ps
    → parse rounds left (encode_all ps ++ behind) ≡ done ps
parse-encode_all [] rounds left behind l r a = rw l (unfold parse in refl)
parse-encode_all (p ∷ ps) rounds zero behind l r a =
    absurd (omega (arith, l, length-encode p, length-append (encode p) (encode_all ps)))
parse-encode_all (p ∷ ps) zero (suc left) behind l r a = absurd (omega arith)
parse-encode_all (p ∷ ps) (suc rounds) (suc left) behind l r (a, as') =
    let whole = length-append (encode p) (encode_all ps) in
    let size = length-append (encode p) (encode_all ps ++ behind) in
    rw
      (append_assoc, parse_step rounds left _ p _ (read_param-encode p (encode_all ps ++ behind) a))
      (ap (with_param p) (
        parse-encode_all ps rounds _ behind (omega (arith, l, whole, size))
          (omega (arith, r, size, length-encode p)) as'))

-- `fcgi_parse_params` of parameters in the protocol's encoding, with names and values below 2 ^ 31
-- bytes, hands them to `ef_stringtab_set` as they were and in their order, an empty value as NULL,
-- whatever stands behind them.
pub parse_params-encode_all :
    (ps : List Param) (behind : List ℕ)
    → All IsEncodable ps
    → parse_params (encode_all ps ++ behind) (length (encode_all ps)) ≡ done ps
unfolding parse_params
parse_params-encode_all ps behind a =
    parse-encode_all ps (length (encode_all ps)) (length (encode_all ps)) behind refl (omega arith)
      a
