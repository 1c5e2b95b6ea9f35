-- ===== src/FastCgi/Params.antt =====
-- `fcgi_parse_params` of src/fastcgi.c. A pointer into the data is the list of the cells from there to the
-- end of the block; a read behind it is a fault.
pub mod Encoded
pub mod Total
use eframework.Base.{
  ℕ, zero, suc, ◌+◌, ◌-◌, ◌*◌, ◌^◌, Option, none, some, List, [], ◌∷◌, length, take, drop, ltb, leb,
  ◌==◌, if◌then◌else◌, bit_and, bit_or,
}
use eframework.Structure.Memory.{Outcome, done, fault, unfinished, read_at}

-- What is handed to `ef_stringtab_set`; the value is NULL if it is empty.
pub record Param : Type 0 where
  pub name : List ℕ
  pub value : Option (List ℕ)

-- Four bytes as a length, without the highest bit.
unfoldable pub long_length : ℕ → List ℕ → Option (ℕ × List ℕ)
long_length b3 [] = none
long_length b3 (b2 ∷ []) = none
long_length b3 (b2 ∷ b1 ∷ []) = none
long_length b3 (b2 ∷ b1 ∷ b0 ∷ ptr) =
    some (bit_or (bit_or (bit_or (bit_and b3 0x7f * 2 ^ 24) (b2 * 2 ^ 16)) (b1 * 2 ^ 8)) b0, ptr)

-- A length, and the pointer behind it.
unfoldable pub read_length : List ℕ → Option (ℕ × List ℕ)
read_length [] = none
read_length (b ∷ ptr) = if leb 128 b then long_length b ptr else some (b, ptr)

-- The value is read only if it is not empty.
unfoldable pub read_value : (name : List ℕ) → (value_len : ℕ) → List ℕ → Option (Param × List ℕ)
read_value name value_len ptr =
    if value_len == 0
    then some (record { name = name; value = none }, ptr)
    else elim (read_at ptr 0 value_len) [
      | none ↦ none
      | some value ↦ some (record { name = name; value = some value }, drop value_len ptr)
    ]

unfoldable pub read_name : (name_len value_len : ℕ) → List ℕ → Option (Param × List ℕ)
read_name name_len value_len ptr = elim (read_at ptr 0 name_len) [
  | none ↦ none
  | some name ↦ read_value name value_len (drop name_len ptr)
]

-- One round of the loop.
unfoldable pub read_param : List ℕ → Option (Param × List ℕ)
read_param ptr = elim (read_length ptr) [
  | none ↦ none
  | some (name_len, behind) ↦ elim (read_length behind) [
    | none ↦ none
    | some (value_len, at_name) ↦ read_name name_len value_len at_name
  ]
]

abbrev pub with_param : Param → Outcome (List Param) → Outcome (List Param)
with_param p (done ps) = done (p ∷ ps)
with_param p fault = fault
with_param p unfinished = unfinished

-- The loop; `left` is `len - (ptr - data)`, 0 once the pointer is there or behind.
unfoldable pub parse : (rounds left : ℕ) → List ℕ → Outcome (List Param)
parse rounds zero ptr = done []
parse zero (suc left) ptr = unfinished
parse (suc rounds) (suc left) ptr = elim (read_param ptr) [
  | none ↦ fault
  | some (p, behind) ↦ with_param p (parse rounds (suc left - (length ptr - length behind)) behind)
]

-- `fcgi_parse_params` of the first `len` cells of a block.
unfoldable pub parse_params : (block : List ℕ) → (len : ℕ) → Outcome (List Param)
parse_params block len = parse len len block
