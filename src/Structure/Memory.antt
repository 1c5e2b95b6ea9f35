-- ===== src/Structure/Memory.antt =====
-- The C library's memory calls, which the sources use: malloc, realloc, memcpy, strlen. A block is
-- the list of its cells; an access outside of a block is a fault.
pub mod Block
use eframework.Base.{
  ℕ, zero, suc, ◌+◌, Bool, Option, none, some, List, [], ◌∷◌, ◌++◌, length, take, drop, leb, ◌==◌,
  if◌then◌else◌,
}

-- How a call of the program ends: with a result, with an access outside of a block, or not within
-- the given number of rounds.
pub data Outcome (A : Type 0) : Type 0 where
  done : A → Outcome A
  fault : Outcome A
  unfinished : Outcome A

-- One answer of the allocator: which sizes it grants, and what new cells hold.
pub record Allocator : Type 0 where
  pub grants : ℕ → Bool
  pub junk : ℕ → ℕ

-- `n` cells, numbered from `i`.
abbrev pub cells : (ℕ → ℕ) → ℕ → ℕ → List ℕ
cells junk i zero = []
cells junk i (suc n) = junk i ∷ cells junk (i + 1) n

-- A block of `n` cells; `size` is the number of bytes that is asked for.
unfoldable pub malloc : Allocator → ℕ → ℕ → Option (List ℕ)
malloc al size n = if al.grants size then some (cells al.junk 0 n) else none

-- The cells that both blocks have are kept.
unfoldable pub realloc : Allocator → List ℕ → ℕ → ℕ → Option (List ℕ)
realloc al old size n =
    if al.grants size then some (take n old ++ drop (length old) (cells al.junk 0 n)) else none

-- The cells behind a pointer, none for NULL.
abbrev pub block_of : Option (List ℕ) → List ℕ
block_of none = []
block_of (some b) = b

-- A pointer whose block has been written to.
abbrev pub rewritten : Option (List ℕ) → List ℕ → Option (List ℕ)
rewritten none b = none
rewritten (some _) b = some b

-- `memcpy` of `bytes` to offset `off`.
unfoldable pub write_at : List ℕ → ℕ → List ℕ → Option (List ℕ)
write_at b off bytes =
    if leb (off + length bytes) (length b)
    then some (take off b ++ (bytes ++ drop (off + length bytes) b))
    else none

-- `n` cells read from offset `off`.
unfoldable pub read_at : List ℕ → ℕ → ℕ → Option (List ℕ)
read_at b off n = if leb (off + n) (length b) then some (take n (drop off b)) else none

-- The number of cells before the first zero; `none` if the block has no zero.
unfoldable pub strlen : List ℕ → Option ℕ
strlen [] = none
strlen (c ∷ b) = if c == 0 then some 0 else elim (strlen b) [ none ↦ none | some n ↦ some (suc n) ]
