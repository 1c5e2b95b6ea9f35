-- ===== src/Structure/HashTable/Lookup.antt =====
-- Setting a key in src/structure/hashtable.c, and finding it.
use eframework.Base.{
  ℕ, suc, ◌+◌, ◌≤◌, ◌<◌, ◌≡◌, refl, Bool, true, false, none, some, List, [], ◌∷◌, take, arith, ltb,
  ◌==◌,
}
use eframework.Structure.Memory.{done}
use eframework.Table.{update}
use eframework.Structure.HashTable.{
  HashTable, slot, hash_func, same_bytes, is_match, walk, find_key, link,
}
use eframework.Structure.HashTable.Update.{alloc_bucket, stored_key, fill_bucket, set_key_value}

same_bytes_refl : (k : List ℕ) → same_bytes k k ≡ true
unfolding same_bytes
same_bytes_refl [] = refl
same_bytes_refl (x ∷ k) = ground (arith, same_bytes_refl k)

same_number : (n : ℕ) → (n == n) ≡ true
same_number n = ground arith

entry-link :
    (ht : HashTable) (index h : ℕ)
    → (ht.arr_data index).h ≡ h
    → (link ht index).entries (slot (link ht index) h) ≡ some index
unfolding link slot
entry-link ht index h e = rw (e, same_number (slot ht h)) refl

match-link :
    (ht : HashTable) (index h : ℕ) (key : List ℕ)
    → (ht.arr_data index).h ≡ h
    → (ht.arr_data index).key ≡ some key
    → is_match ((link ht index).arr_data index) h key ≡ true
unfolding link is_match
match-link ht index h key eh ek =
    rw (same_number index, eh, ek, same_number h, same_bytes_refl key) refl

-- The head of a chain is found in one round.
link-found :
    (ht : HashTable) (index rounds : ℕ) (key : List ℕ)
    → (ht.arr_data index).h ≡ hash_func key
    → (ht.arr_data index).key ≡ some key
    → find_key (suc rounds) (link ht index) key ≡ done (some index)
unfolding find_key walk
link-found ht index rounds key eh ek =
    rw
      (
        entry-link ht index (hash_func key) eh,
        match-link ht index (hash_func key) key eh ek,
        find_key,
        walk,
      )
      refl

-- A bucket that has been filled is the first of its chain, so its key is found in one round.
pub fill_bucket-found :
    (ht : HashTable) (index val rounds : ℕ) (key : List ℕ)
    → let out = fill_bucket true ht index (hash_func key) key val in
      (find_key (suc rounds) out.1 key ≡ done (some index)) × ((out.1.arr_data index).val ≡ val)
unfolding fill_bucket link
fill_bucket-found ht index val rounds key =
    let filled = record ht {
      used = ht.used + 1;
      arr_data =
          update ht.arr_data index
            (record (ht.arr_data index) { key = some key; h = hash_func key; val = val });
    } in
    let here = same_number index in
    (link-found filled index rounds key (rw here refl) (rw here refl), rw here refl)

-- What setting a new key gives where a bucket has never been used.
pub record Inserted (rounds : ℕ) (data_ok : Bool) (ht : HashTable) (str : List ℕ) (klen val : ℕ)
    : Type 0 where
  pub result : HashTable
  pub runs : set_key_value (suc rounds) true data_ok ht str klen val ≡ done (some ht.next, result)
  pub found : find_key (suc rounds) result (take klen str) ≡ done (some ht.next)
  pub holds : (result.arr_data ht.next).val ≡ val
  pub one_more : result.used ≡ ht.used + 1
  pub taken : result.next ≡ ht.next + 1

-- `ef_hashtable_set_key_value` of a key that is not empty and not in the table, while a bucket has
-- never been used and all is granted: it returns that bucket, the key is then found there in the
-- same number of rounds, with the value, and the table counts one more.
pub set_key_value-Inserted :
    (rounds : ℕ) (data_ok : Bool) (ht : HashTable) (str : List ℕ) (klen val : ℕ)
    → 1 ≤ klen
    → ht.next < ht.cap
    → find_key (suc rounds) ht (take klen str) ≡ done none
    → Inserted rounds data_ok ht str klen val
unfolding set_key_value alloc_bucket stored_key fill_bucket link
set_key_value-Inserted rounds data_ok ht str klen val k room absent =
    let key = take klen str in
    let advanced = record ht { next = ht.next + 1 } in
    let (found, holds) = fill_bucket-found advanced ht.next val rounds key in
    let has_room : ltb ht.next ht.cap ≡ true = ground arith in
    let given : (klen == 0) ≡ false = ground arith in
    record {
      result = (fill_bucket true advanced ht.next (hash_func key) key val).1;
      runs = rw (absent, has_room, given, set_key_value, alloc_bucket, stored_key) refl;
      found = found;
      holds = holds;
      one_more = refl;
      taken = refl;
    }
