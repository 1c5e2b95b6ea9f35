-- ===== src/Structure/Memory/Block.antt =====
-- Lengths and contents of blocks after the memory calls.
use eframework.Base.{
  ℕ, zero, suc, ◌+◌, ◌≤◌, ◌<◌, ◌≡◌, refl, ◌∙◌, ap, Option, none, some, List, [], ◌∷◌, ◌++◌, arith,
  length, take, drop, length-append, length-take, length-drop, take-append_le, take-append_add,
  take_all, take-take_le,
}
use eframework.Structure.Memory.{Allocator, cells, malloc, realloc, block_of, rewritten, write_at}

pub length-cells : (junk : ℕ → ℕ) (i n : ℕ) → length (cells junk i n) ≡ n
length-cells junk i zero = refl
length-cells junk i (suc n) = ap suc (length-cells junk (i + 1) n)

pub malloc-length :
    (al : Allocator) (size n : ℕ) {b : List ℕ} → malloc al size n ≡ some b → length b ≡ n
unfolding malloc
malloc-length al size n e = ground (arith, length-cells al.junk 0 n)

pub realloc-length :
    (al : Allocator) (old : List ℕ) (size n : ℕ) {b : List ℕ}
    → realloc al old size n ≡ some b
    → length b ≡ n
unfolding realloc
realloc-length al old size n e = ground (
  arith,
  length-append (take n old) (drop (length old) (cells al.junk 0 n)),
  length-take n old,
  length-drop (length old) (cells al.junk 0 n),
  length-cells al.junk 0 n,
)

-- A larger block starts with what the old one held.
pub take-realloc :
    (al : Allocator) (old : List ℕ) (size n k : ℕ) {b : List ℕ}
    → realloc al old size n ≡ some b
    → k ≤ length old
    → k ≤ n
    → take k b ≡ take k old
unfolding realloc
take-realloc al old size n k e p q = ground (
  arith,
  take-append_le k (take n old) (drop (length old) (cells al.junk 0 n)),
  length-take n old,
  take-take_le k n old,
)

-- A write inside of the block succeeds: the prefix before it is kept, and ends with the bytes.
pub record Written (b : List ℕ) (off : ℕ) (bytes b' : List ℕ) : Type 0 where
  pub result : write_at b off bytes ≡ some b'
  pub size : length b' ≡ length b
  pub prefix : take (off + length bytes) b' ≡ take off b ++ bytes

pub write_at-ok :
    (b : List ℕ) (off : ℕ) (bytes : List ℕ)
    → off + length bytes ≤ length b
    → (b' : List ℕ) × Written b off bytes b'
unfolding write_at
write_at-ok b off bytes h =
    let rest = drop (off + length bytes) b in
    let whole = take off b ++ (bytes ++ rest) in
    let head : length (take off b) ≡ off = omega (arith, length-take off b) in
    let size : length whole ≡ length b = omega (
      arith,
      length-append (take off b) (bytes ++ rest),
      length-append bytes rest,
      length-drop (off + length bytes) b,
      head,
    ) in
    let inner : take (length bytes) (bytes ++ rest) ≡ bytes =
      take-append_le (length bytes) bytes rest (omega arith) ∙ take_all _ bytes (omega arith) in
    let outer : take (length (take off b) + length bytes) whole ≡ take off b ++ bytes =
      take-append_add (length bytes) (take off b) (bytes ++ rest)
      ∙ ap (λ t. take off b ++ t) inner in
    (
      whole,
      record {
        result = ground arith;
        size = size;
        prefix = ap (λ k. take (k + length bytes) whole) (omega (arith, head)) ∙ outer;
      },
    )

pub write_at-fault :
    (b : List ℕ) (off : ℕ) (bytes : List ℕ)
    → length b < off + length bytes
    → write_at b off bytes ≡ none
unfolding write_at
write_at-fault b off bytes h = ground arith

-- Writing through a pointer to a block keeps it pointing to the new cells.
pub rewritten-block :
    (ptr : Option (List ℕ)) (b : List ℕ)
    → length b ≡ length (block_of ptr)
    → block_of (rewritten ptr b) ≡ b
rewritten-block none [] e = refl
rewritten-block none (x ∷ b) e = absurd (omega arith)
rewritten-block (some _) b e = refl
