-- ===== src/FastCgi/Params/Total.antt =====
-- Parameters of any bytes: the end of the loop, and reads behind the data.
use eframework.Base.{
  ℕ, zero, suc, ◌+◌, ◌-◌, ◌^◌, ◌≤◌, ◌<◌, false, Option, none, some, List, [], ◌∷◌, ◌++◌, length,
  length-append, length-drop, leb, ◌≡◌, ◌≢◌, refl, inl, inr, arith, Option-cases, drop,
}
use eframework.Structure.Memory.{Outcome, done, fault, unfinished, read_at}
use eframework.FastCgi.Params.{
  Param, long_length, read_length, read_value, read_name, read_param, with_param, parse,
  parse_params,
}
use eframework.FastCgi.Params.Encoded.{
  encode_length, read_length-encode_length, length-encode_length,
}

-- What is read leaves less to read.
abbrev Shortens : {A : Type 0} → (n : ℕ) → Option (A × List ℕ) → Type 0
Shortens n none = Unit
Shortens n (some (a, behind)) = length behind < n

read_length-Shortens : (ptr : List ℕ) → Shortens (length ptr) (read_length ptr)
unfolding read_length long_length
read_length-Shortens [] = tt
read_length-Shortens (b ∷ []) = ground arith
read_length-Shortens (b ∷ b2 ∷ []) = ground arith
read_length-Shortens (b ∷ b2 ∷ b1 ∷ []) = ground arith
read_length-Shortens (b ∷ b2 ∷ b1 ∷ b0 ∷ ptr) = ground arith

read_value-Shortens :
    (name : List ℕ) (value_len n : ℕ) (ptr : List ℕ)
    → length ptr < n
    → Shortens n (read_value name value_len ptr)
unfolding read_value read_at
read_value-Shortens name value_len n ptr h = ground (arith, length-drop value_len ptr)

read_name-Shortens :
    (name_len value_len n : ℕ) (ptr : List ℕ)
    → length ptr < n
    → Shortens n (read_name name_len value_len ptr)
unfolding read_name
read_name-Shortens name_len value_len n ptr h = elim (Option-cases (read_at ptr 0 name_len)) [
  | inl over ↦ rw (over, read_name) tt
  | inr (name, e) ↦
      rw (e, read_name)
        (read_value-Shortens name value_len n (drop name_len ptr)
          (omega (arith, length-drop name_len ptr)))
]

read_param-Shortens : (ptr : List ℕ) → Shortens (length ptr) (read_param ptr)
unfolding read_param
read_param-Shortens ptr = elim (Option-cases (read_length ptr)) [
  | inl over ↦ rw (over, read_param) tt
  | inr ((name_len, behind), e) ↦
      let first : length behind < length ptr = rw e at (read_length-Shortens ptr) in
      elim (Option-cases (read_length behind)) [
        | inl over ↦ rw (e, read_param) (rw over tt)
        | inr ((value_len, at_name), f) ↦
            let second : length at_name < length behind = rw f at (read_length-Shortens behind) in
            rw (e, read_param)
              (rw f (read_name-Shortens name_len value_len (length ptr) at_name (omega arith)))
      ]
]

with_param-finishes :
    (p : Param) (o : Outcome (List Param)) → o ≢ unfinished → with_param p o ≢ unfinished
with_param-finishes p (done ps) h = λ e. cc
with_param-finishes p fault h = λ e. cc
with_param-finishes p unfinished h = absurd (h refl)

parse_finishes :
    (rounds left : ℕ) (ptr : List ℕ) → left ≤ rounds → parse rounds left ptr ≢ unfinished
unfolding parse
parse_finishes rounds zero ptr h = λ e. cc
parse_finishes zero (suc left) ptr h = absurd (omega arith)
parse_finishes (suc rounds) (suc left) ptr h = elim (Option-cases (read_param ptr)) [
  | inl over ↦ rw (over, parse) (λ e. cc)
  | inr ((p, behind), e) ↦
      let less_left : length behind < length ptr = rw e at (read_param-Shortens ptr) in
      rw (e, parse)
        (with_param-finishes p _ (
          parse_finishes rounds (suc left - (length ptr - length behind)) behind
            (omega (arith, less_left))))
]

-- The loop of `fcgi_parse_params` comes to an end on every block, well formed or not, within as
-- many rounds as it has bytes to read.
pub parse_params_finishes : (block : List ℕ) (len : ℕ) → parse_params block len ≢ unfinished
unfolding parse_params
parse_params_finishes block len = parse_finishes len len block (omega arith)

parse_refused : (n : ℕ) (ptr : List ℕ) → 1 ≤ n → read_param ptr ≡ none → parse n n ptr ≡ fault
unfolding parse
parse_refused zero ptr h e = absurd (omega arith)
parse_refused (suc n) ptr h e = rw (e, parse) refl

read_name_overrun :
    (name_len value_len : ℕ) (ptr : List ℕ)
    → length ptr < name_len
    → read_name name_len value_len ptr ≡ none
unfolding read_name read_at
read_name_overrun name_len value_len ptr h =
    let over : leb (0 + name_len) (length ptr) ≡ false = ground arith in rw (over, read_name) refl

-- If what follows the two lengths of a parameter is shorter than the length of its name, and the
-- block ends there, `fcgi_parse_params` hands on a name that reaches behind the block.
pub parse_params_overrun :
    (name_len value_len : ℕ) (bytes : List ℕ)
    → name_len < 2 ^ 31
    → value_len < 2 ^ 31
    → length bytes < name_len
    → let block = encode_length name_len ++ (encode_length value_len ++ bytes) in
      parse_params block (length block) ≡ fault
unfolding parse_params read_param
parse_params_overrun name_len value_len bytes n v h =
    let behind = encode_length value_len ++ bytes in
    let name = read_length-encode_length name_len behind n in
    let value = read_length-encode_length value_len bytes v in
    let over : read_param (encode_length name_len ++ behind) ≡ none =
      rw (name, read_param) (rw value (read_name_overrun name_len value_len bytes h)) in
    parse_refused _ (encode_length name_len ++ behind)
      (omega (arith, length-append (encode_length name_len) behind, length-encode_length name_len))
      over
