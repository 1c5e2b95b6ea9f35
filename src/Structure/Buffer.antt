-- ===== src/Structure/Buffer.antt =====
-- src/structure/buffer.c: a growing byte buffer.
pub mod Valid
pub mod Stored
mod Tests
use eframework.Base.{
  ℕ, zero, suc, ◌^◌, ◌≤◌, ◌<◌, ◌≡◌, Bool, true, false, Option, none, some, List, [], ◌∷◌, length,
  take, leb, ◌==◌, if◌then◌else◌, add_size, sub_size,
}
use eframework.Structure.Util.{resize}
use eframework.Structure.Memory.{
  Outcome, done, fault, unfinished, Allocator, malloc, realloc, block_of, rewritten, write_at,
}

-- `ef_buffer_t`; `ptr` is `none` for NULL, and else the block that it points to.
pub record Buffer : Type 0 where
  pub ptr : Option (List ℕ)
  pub cap : ℕ
  pub len : ℕ

abbrev pub sizeof_buffer : ℕ
sizeof_buffer = 24

-- `ef_buffer_new`; `al` answers for the struct and `al'` for the bytes. `none` is NULL.
unfoldable pub new : (al al' : Allocator) → ℕ → Option Buffer
new al al' cap =
    if al.grants sizeof_buffer
    then (let cap' = if cap == 0 then 0 else resize cap 0 in
        if cap' == 0
        then some (record { ptr = none; cap = cap'; len = 0 })
        else elim (malloc al' cap' cap') [
          | none ↦ none
          | some b ↦ some (record { ptr = some b; cap = cap'; len = 0 })
        ])
    else none

-- `realloc`, or `malloc` where there is no block yet.
unfoldable pub regrow : Allocator → Option (List ℕ) → ℕ → Option (List ℕ)
regrow al none cap = malloc al cap cap
regrow al (some b) cap = realloc al b cap cap

-- `ef_buffer_expand`: `true` for 0, `false` for -1.
unfoldable pub expand : Allocator → Buffer → ℕ → Bool × Buffer
expand al buf n =
    if leb n (sub_size buf.cap buf.len)
    then (true, buf)
    else (let cap = resize (add_size buf.len n) 0 in
        elim (regrow al buf.ptr cap) [
          | none ↦ (false, buf)
          | some b ↦ (true, record buf { ptr = some b; cap = cap })
        ])

-- The `memcpy` behind the bytes that are there.
unfoldable pub copy_data : Buffer → List ℕ → Outcome (Bool × Buffer)
copy_data buf bytes = elim (write_at (block_of buf.ptr) buf.len bytes) [
  | none ↦ fault
  | some b ↦
      done (true, record buf { ptr = rewritten buf.ptr b; len = add_size buf.len (length bytes) })
]

-- `ef_buffer_append`, with the number of times that `copy_data:` may be reached.
unfoldable pub append : ℕ → Allocator → Buffer → List ℕ → Outcome (Bool × Buffer)
append zero al buf bytes = unfinished
append (suc rounds) al buf bytes =
    let grown = expand al buf (length bytes) in
    let again = append rounds al grown.1 bytes in
    if leb (length bytes) (sub_size buf.cap buf.len)
    then copy_data buf bytes
    else if grown.0
    then again
    else done (false, buf)

-- `ef_buffer_free` with `destroy` false: the struct stays, empty. (Freeing it leaves nothing.)
unfoldable pub reset : Buffer → Buffer
reset buf = record { ptr = none; cap = 0; len = 0 }

-- The bytes that the buffer holds.
abbrev pub contents : Buffer → List ℕ
contents buf = take buf.len (block_of buf.ptr)

-- Its length and capacity are those of its block; half of the address space bounds it.
pub record IsValid (buf : Buffer) : Type 0 where
  pub len_in : buf.len ≤ buf.cap
  pub block : length (block_of buf.ptr) ≡ buf.cap
  pub small : buf.cap ≤ 2 ^ 63
