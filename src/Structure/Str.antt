-- ===== src/Structure/Str.antt =====
-- src/structure/string.c: counted strings that also end with a zero byte.
pub mod Terminated
mod Tests
use eframework.Base.{
  ℕ, suc, ◌<◌, ◌≡◌, Bool, true, false, Option, none, some, List, [], ◌∷◌, ◌++◌, length, take, ◌==◌,
  if◌then◌else◌, add_size,
}
use eframework.Structure.Memory.{
  Outcome, done, fault, Allocator, malloc, realloc, block_of, write_at, read_at, strlen,
}

-- `ef_string_t`.
pub record Str : Type 0 where
  pub str : Option (List ℕ)
  pub len : ℕ

abbrev pub sizeof_string : ℕ
sizeof_string = 16

-- The length that a call works with: a given length of 0 asks for `strlen`, and NULL has none.
-- `sz` is the memory from the pointer on. An unterminated text is read past its end.
unfoldable pub length_of : Option (List ℕ) → ℕ → Option ℕ
length_of sz n = if n == 0 then elim sz [ none ↦ some 0 | some text ↦ strlen text ] else some n

-- `ef_string_new`; `al` answers for the struct and `al'` for the bytes.
unfoldable pub new : (al al' : Allocator) → Option (List ℕ) → ℕ → Outcome (Option Str)
new al al' sz n =
    if al.grants sizeof_string
    then elim (length_of sz n) [
      | none ↦ fault
      | some len ↦ elim (malloc al' (add_size len 1) (add_size len 1)) [
        | none ↦ done none
        | some b ↦ elim (read_at (block_of sz) 0 len) [
          | none ↦ fault
          | some bytes ↦ elim (write_at b 0 (bytes ++ 0 ∷ [])) [
            | none ↦ fault
            | some b' ↦ done (some (record { str = some b'; len = len }))
          ]
        ]
      ]
    ]
    else done none

-- `realloc`, or `malloc` where there are no bytes yet.
unfoldable pub regrow : Allocator → Str → ℕ → Option (List ℕ)
regrow al s len = elim s.str [
  | none ↦ malloc al (add_size len 1) (add_size len 1)
  | some b ↦ realloc al b (add_size (add_size s.len len) 1) (add_size (add_size s.len len) 1)
]

-- `ef_string_append`: `true` for 0, `false` for -1.
unfoldable pub append : Allocator → Str → Option (List ℕ) → ℕ → Outcome (Bool × Str)
append al s sz n = elim (length_of sz n) [
  | none ↦ fault
  | some len ↦ if len == 0 then done (true, s) else elim (regrow al s len) [
    | none ↦ done (false, s)
    | some b ↦ elim (read_at (block_of sz) 0 len) [
      | none ↦ fault
      | some bytes ↦ elim (write_at b s.len (bytes ++ 0 ∷ [])) [
        | none ↦ fault
        | some b' ↦ done (true, record { str = some b'; len = add_size s.len len })
      ]
    ]
  ]
]

-- `ef_string_free` with `destroy` false.
unfoldable pub reset : Str → Str
reset s = record { str = none; len = 0 }

abbrev pub contents : Str → List ℕ
contents s = take s.len (block_of s.str)

-- The block holds the bytes and a zero behind them; without a block there are none.
abbrev pub IsTerminated : Str → Type 0
IsTerminated s = elim s.str [
  | none ↦ s.len ≡ 0
  | some b ↦ (s.len < length b) × (take (suc s.len) b ≡ take s.len b ++ 0 ∷ [])
]
