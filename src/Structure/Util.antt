-- ===== src/Structure/Util.antt =====
-- src/structure/util.h: rounding a size up to a power of two by smearing bits; the 32-bit copy of
-- it in src/structure/hashtable.c (hash_recap).

pub mod Resize
mod Tests
use eframework.Base.{
  ℕ, ◌+◌, ◌-◌, bit_or, ltb, leb, if◌then◌else◌, ◌>>>◌, ◌%◌, u32_mod, add_size, sub_size,
}

-- `size |= (size >> k)`
pub or_shift : ℕ → ℕ → ℕ
or_shift k x = bit_or x (x >>> k)

pub smear32 : ℕ → ℕ
smear32 x = or_shift 16 (or_shift 8 (or_shift 4 (or_shift 2 (or_shift 1 x))))

pub smear64 : ℕ → ℕ
smear64 x = or_shift 32 (smear32 x)

-- `ef_resize` on x86_64.
unfoldable pub resize : ℕ → ℕ → ℕ
resize size min_size =
    add_size (smear64 (sub_size (if ltb size min_size then min_size else size) 1)) 1

abbrev pub hash_table_init_cap : ℕ
hash_table_init_cap = 8

-- `hash_recap`
unfoldable pub hash_recap : ℕ → ℕ
hash_recap cap =
    if leb cap hash_table_init_cap then hash_table_init_cap else (smear32 (cap - 1) + 1) % u32_mod
