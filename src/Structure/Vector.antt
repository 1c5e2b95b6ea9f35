-- ===== src/Structure/Vector.antt =====
-- src/structure/vector.c: a growing array of pointers. A pointer is a number, and NULL is 0.
pub mod Append
mod Tests
use eframework.Base.{
  ℕ, ◌+◌, ◌*◌, ◌/◌, ◌^◌, ◌≤◌, ◌≡◌, Bool, Option, none, some, List, [], ◌∷◌, ◌++◌, length, take, ltb,
  ◌==◌, if◌then◌else◌, add_size, mul_size,
}
use eframework.Structure.Util.{resize}
use eframework.Structure.Memory.{
  Outcome, done, fault, Allocator, malloc, realloc, block_of, rewritten, write_at,
}

-- `ef_vector_t` without its destructor, which `free` takes; `ptr` is the block, in pointers.
pub record Vector : Type 0 where
  pub ptr : Option (List ℕ)
  pub cap : ℕ
  pub len : ℕ

abbrev pub sizeof_vector : ℕ
sizeof_vector = 32

abbrev pub sizeof_ptr : ℕ
sizeof_ptr = 8

abbrev pub vector_grow_size : ℕ
vector_grow_size = 8

-- `ef_vector_new`; `al` answers for the struct and `al'` for the array. `none` is NULL.
unfoldable pub new : (al al' : Allocator) → ℕ → Option Vector
new al al' cap =
    if al.grants sizeof_vector
    then (let cap' = if cap == 0 then 0 else resize cap vector_grow_size in
        if cap' == 0
        then some (record { ptr = none; cap = cap'; len = 0 })
        else elim (malloc al' (mul_size cap' sizeof_ptr) (mul_size cap' sizeof_ptr / sizeof_ptr)) [
          | none ↦ none
          | some b ↦ some (record { ptr = some b; cap = cap'; len = 0 })
        ])
    else none

-- The array for the new capacity. The size that is asked for is `cap` bytes, which is room for
-- `cap / 8` pointers.
unfoldable pub regrow : Allocator → Option (List ℕ) → ℕ → Option (List ℕ)
regrow al none cap = malloc al cap (cap / sizeof_ptr)
regrow al (some b) cap = realloc al b cap (cap / sizeof_ptr)

-- `vec->ptr[idx] = ptr` behind `++vec->len`; the result is the index.
unfoldable pub store : Vector → ℕ → Outcome (Option ℕ × Vector)
store vec x = elim (write_at (block_of vec.ptr) vec.len (x ∷ [])) [
  | none ↦ fault
  | some b ↦ done (some vec.len, record vec { ptr = rewritten vec.ptr b; len = add_size vec.len 1 })
]

-- `ef_vector_append`: the index of the new element, `none` for -1. A failed growth leaves the
-- capacity raised.
unfoldable pub append : Allocator → Vector → ℕ → Outcome (Option ℕ × Vector)
append al vec x =
    if ltb vec.len vec.cap
    then store vec x
    else (let cap = add_size vec.cap vector_grow_size in
        elim (regrow al vec.ptr cap) [
          | none ↦ done (none, record vec { cap = cap })
          | some b ↦ store (record { ptr = some b; cap = cap; len = vec.len }) x
        ])

-- The elements that `ef_vector_free` hands to the destructor, in order.
pub destroyed : List ℕ → List ℕ
destroyed [] = []
destroyed (x ∷ xs) = if x == 0 then destroyed xs else x ∷ destroyed xs

abbrev pub contents : Vector → List ℕ
contents vec = take vec.len (block_of vec.ptr)

-- `ef_vector_free` with `destroy` false: what the destructor is called on, and the struct.
unfoldable pub free : Bool → Vector → List ℕ × Vector
free has_dtor vec =
    (if has_dtor then destroyed (contents vec) else [], record { ptr = none; cap = 0; len = 0 })

-- The block has room for as many pointers as the capacity says, and its bytes fit `size_t`.
pub record IsValid (vec : Vector) : Type 0 where
  pub len_in : vec.len ≤ vec.cap
  pub block : length (block_of vec.ptr) ≡ vec.cap
  pub small : vec.cap ≤ 2 ^ 61
