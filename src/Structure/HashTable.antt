-- ===== src/Structure/HashTable.antt =====
-- src/structure/hashtable.c, src/structure/hashtable.h: a table from byte strings to values. The
-- index -1 of the source is `none`; a chain is walked in a given number of rounds.
pub mod Hash
pub mod Slot
pub mod Update
pub mod Lookup
mod Tests
use eframework.Base.{
  ℕ, zero, suc, ◌+◌, ◌-◌, ◌*◌, ◌%◌, ◌^◌, Bool, true, false, ◌&&◌, ◌||◌, Option, none, some, List,
  [], ◌∷◌, length, take, ltb, leb, ◌==◌, if◌then◌else◌, bit_or, size_mod, u32_mod, add_size,
  mul_size,
}
use eframework.Structure.Util.{hash_recap}
use eframework.Structure.Memory.{Outcome, done, fault, unfinished, strlen}
use eframework.Table.{update}

-- A `char` is signed: the byte that it adds to an `unsigned long`.
abbrev pub char_value : ℕ → ℕ
char_value c = if ltb c 128 then c else c + size_mod - 256

-- `hash = ((hash << 5) + hash) + *str++`.
unfoldable pub hash_step : ℕ → ℕ → ℕ
hash_step hash c = add_size (add_size (mul_size hash 32) hash) (char_value c)

-- The `switch` behind the unrolled loop: `case n`, which falls through to those below it.
unfoldable pub fall_through : (n hash : ℕ) → List ℕ → ℕ
fall_through zero hash str = hash
fall_through (suc n) hash [] = hash
fall_through (suc n) hash (c ∷ str) = fall_through n (hash_step hash c) str

abbrev pub eight_bytes : (hash a b c d e f g h : ℕ) → ℕ
eight_bytes hash a b c d e f g h =
    hash_step
      (hash_step
        (hash_step (hash_step (hash_step (hash_step (hash_step (hash_step hash a) b) c) d) e) f) g)
      h

-- Eight steps at once, while there are eight bytes.
unfoldable pub unrolled : (hash : ℕ) → List ℕ → ℕ
unrolled hash (a ∷ b ∷ c ∷ d ∷ e ∷ f ∷ g ∷ h ∷ str) =
    unrolled (eight_bytes hash a b c d e f g h) str
unrolled hash str = fall_through (length str) hash str

-- `hash_func`, for 64-bit words.
unfoldable pub hash_func : List ℕ → ℕ
hash_func str = bit_or (unrolled 5381 str) (2 ^ 63)

-- `ef_bucket_t`; `val` is its union.
pub record Bucket : Type 0 where
  pub h : ℕ
  pub key : Option (List ℕ)
  pub val : ℕ
  pub next : Option ℕ

-- `ef_hashtable_t` without the destructor; `entries` are the chains' heads in front of the buckets.
pub record HashTable : Type 0 where
  pub cap : ℕ
  pub sizemask : ℕ
  pub used : ℕ
  pub next : ℕ
  pub removed : Option ℕ
  pub entries : ℕ → Option ℕ
  pub arr_data : ℕ → Bucket

-- HASH_SIZEMASK.
abbrev pub size_mask : ℕ → ℕ
size_mask cap = (u32_mod - cap) % u32_mod

-- HASH_OFFSET, counted from the first entry: the source counts it from behind the last one.
unfoldable pub slot : HashTable → ℕ → ℕ
slot ht h = (bit_or (h % u32_mod) ht.sizemask + ht.cap) % u32_mod

abbrev pub empty_bucket : Bucket
empty_bucket = record { h = 0; key = none; val = 0; next = some 0 }

-- `ef_hashtable_new`; each flag says whether an allocation succeeds.
unfoldable pub new : (data_ok table_ok : Bool) → ℕ → Option HashTable
new data_ok table_ok cap =
    if data_ok && table_ok
    then some (record {
      cap = hash_recap cap;
      sizemask = size_mask (hash_recap cap);
      used = 0;
      next = 0;
      removed = none;
      entries = λ _. none;
      arr_data = λ _. empty_bucket;
    })
    else none

-- Equality of byte strings: the lengths, and `memcmp`.
unfoldable pub same_bytes : List ℕ → List ℕ → Bool
same_bytes [] [] = true
same_bytes [] (y ∷ l) = false
same_bytes (x ∷ k) [] = false
same_bytes (x ∷ k) (y ∷ l) = (x == y) && same_bytes k l

-- The test that both walks make of a bucket.
unfoldable pub is_match : Bucket → (h : ℕ) → List ℕ → Bool
is_match pb h key = (pb.h == h) && elim pb.key [ none ↦ false | some k ↦ same_bytes k key ]

-- The walk of `ef_hashtable_find_key` from one bucket on.
unfoldable pub walk : (rounds : ℕ) → HashTable → (h : ℕ) → List ℕ → (index : ℕ) → Outcome (Option ℕ)
walk zero ht h key index = unfinished
walk (suc rounds) ht h key index = elim (is_match (ht.arr_data index) h key) [
  | true ↦ done (some index)
  | false ↦ elim (ht.arr_data index).next [ none ↦ done none | some i ↦ walk rounds ht h key i ]
]

-- `ef_hashtable_find_key`: the bucket's index.
unfoldable pub find_key : (rounds : ℕ) → HashTable → List ℕ → Outcome (Option ℕ)
find_key rounds ht key =
    let h = hash_func key in
    elim (ht.entries (slot ht h)) [ none ↦ done none | some index ↦ walk rounds ht h key index ]

-- One bucket is put at the head of its chain.
unfoldable pub link : HashTable → (index : ℕ) → HashTable
link ht index =
    let offset = slot ht (ht.arr_data index).h in
    record ht {
      arr_data = update ht.arr_data index (record (ht.arr_data index) { next = ht.entries offset });
      entries = update ht.entries offset (some index);
    }

-- The loop of `ef_hashtable_resize` over `n` old buckets from `index` on; `to` is the next new one.
unfoldable pub move_buckets : (old : ℕ → Bucket) → (index n to : ℕ) → HashTable → HashTable
move_buckets old index zero to ht = ht
move_buckets old index (suc n) to ht =
    let pb = old index in
    let is_free = (pb.h == 0) && elim pb.key [ none ↦ true | some _ ↦ false ] in
    elim is_free [
      | true ↦ move_buckets old (index + 1) n to ht
      | false ↦ move_buckets old (index + 1) n (to + 1) (
          link
            (record ht {
              arr_data =
                  update ht.arr_data to
                    (record (ht.arr_data to) { h = pb.h; key = pb.key; val = pb.val });
            })
            to)
    ]

-- `ef_hashtable_resize`: whether it succeeds (0 and not -1).
unfoldable pub resize : (data_ok : Bool) → HashTable → ℕ → Bool × HashTable
resize data_ok ht cap =
    let cap' = hash_recap cap in
    if ltb cap' ht.used
    then (false, ht)
    else if data_ok
    then (
      true,
      move_buckets ht.arr_data 0 ht.cap 0 (record {
        cap = cap';
        sizemask = size_mask cap';
        used = ht.used;
        next = ht.used;
        removed = none;
        entries = λ _. none;
        arr_data = λ _. empty_bucket;
      }),
    )
    else (false, ht)
