-- ===== src/Structure/StringTab/Stored.antt =====
-- Setting a key of a table of strings.
use eframework.Base.{
  ℕ, zero, suc, ◌≤◌, ◌≡◌, ◌≢◌, refl, Bool, true, false, inl, inr, Option, none, some, List, take,
  length, take_all, arith, ◌==◌, Bool-cases, Option-cases,
}
use eframework.Structure.Memory.{done}
use eframework.Table.{update}
use eframework.Structure.HashTable.{HashTable, slot, hash_func, is_match, walk, find_key}
use eframework.Structure.HashTable.Update.{stored_key, set_key_value}
use eframework.Structure.StringTab.{
  StringTab, str_dtor, value_at, find, replaced, keep_string, set_string, set,
}

same_number : (n : ℕ) → (n == n) ≡ true
same_number n = ground arith

-- A table in which one value has changed.
abbrev revalued : HashTable → ℕ → ℕ → HashTable
revalued ht i val = record ht {
  arr_data = update ht.arr_data i (record (ht.arr_data i) { val = val });
}

is_match-revalued :
    (ht : HashTable) (i val h : ℕ) (key : List ℕ) (j : ℕ)
    → is_match ((revalued ht i val).arr_data j) h key ≡ is_match (ht.arr_data j) h key
unfolding is_match
is_match-revalued ht i val h key j = elim (Bool-cases (i == j)) [
  | inl here ↦ let e : i ≡ j = ground (arith, here) in rw e (rw (same_number j) refl)
  | inr other ↦ rw other refl
]

next-revalued :
    (ht : HashTable) (i val j : ℕ) → ((revalued ht i val).arr_data j).next ≡ (ht.arr_data j).next
next-revalued ht i val j = elim (Bool-cases (i == j)) [
  | inl here ↦ let e : i ≡ j = ground (arith, here) in rw e (rw (same_number j) refl)
  | inr other ↦ rw other refl
]

walk-revalued :
    (rounds : ℕ) (ht : HashTable) (i val h : ℕ) (key : List ℕ) (j : ℕ)
    → walk rounds (revalued ht i val) h key j ≡ walk rounds ht h key j
unfolding walk
walk-revalued zero ht i val h key j = refl
walk-revalued (suc rounds) ht i val h key j =
    let m = is_match-revalued ht i val h key j in
    elim (Bool-cases (is_match (ht.arr_data j) h key)) [
      | inl hit ↦ rw (m, hit, walk) refl
      | inr miss ↦
          rw (m, miss, walk)
            (rw (next-revalued ht i val j) (elim (Option-cases (ht.arr_data j).next) [
              | inl last ↦ rw last refl
              | inr (k, more) ↦ rw more (walk-revalued rounds ht i val h key k)
            ]))
    ]

find_key-revalued :
    (rounds : ℕ) (ht : HashTable) (i val : ℕ) (key : List ℕ)
    → find_key rounds (revalued ht i val) key ≡ find_key rounds ht key
unfolding find_key slot
find_key-revalued rounds ht i val key = elim (Option-cases (ht.entries (slot ht (hash_func key)))) [
  | inl empty ↦ rw (empty, find_key) refl
  | inr (j, head) ↦ rw (head, find_key) (walk-revalued rounds ht i val (hash_func key) key j)
]

-- What setting a key that is there gives.
pub record Replaced (rounds : ℕ) (granted : Option ℕ) (key_ok data_ok : Bool) (tb : StringTab)
    (key : List ℕ) (klen : ℕ) (text : List ℕ) (vlen str i : ℕ) : Type 0 where
  pub result : StringTab
  pub runs : set rounds granted key_ok data_ok tb key klen (some text) vlen ≡ done (str, result)
  pub found : find rounds result key klen ≡ done str
  pub holds : result.strings str ≡ some (take vlen text)
  pub freed : (tb.table.arr_data i).val ≢ 0 → result.strings (tb.table.arr_data i).val ≡ none
  pub kept : (x : ℕ) → x ≢ str → x ≢ (tb.table.arr_data i).val → result.strings x ≡ tb.strings x
  pub others :
      (k : List ℕ) (j : ℕ)
      → find_key rounds tb.table k ≡ done (some j)
      → j ≢ i
      → find rounds result k (length k) ≡ find rounds tb k (length k)
  pub absent :
      (k : List ℕ)
      → find_key rounds tb.table k ≡ done none
      → find rounds result k (length k) ≡ done 0

-- `ef_stringtab_set` of a key that is in the table, with a value that is not NULL and not empty,
-- if its string is made at an address other than the old string's: it returns the new string,
-- which holds the value, and `ef_stringtab_find` then finds it. The old string is freed, and no
-- other. Each key with another bucket is found with its value from before, and a key that was not
-- there is still not there.
pub stringtab_set-Replaced :
    (rounds : ℕ) (key_ok data_ok : Bool) (tb : StringTab) (key : List ℕ) (klen : ℕ) (text : List ℕ)
    (vlen str i : ℕ)
    → 1 ≤ vlen
    → str ≢ (tb.table.arr_data i).val
    → find_key rounds tb.table (take klen key) ≡ done (some i)
    → Replaced rounds (some str) key_ok data_ok tb key klen text vlen str i
unfolding find value_at set set_string set_key_value keep_string replaced str_dtor stored_key
stringtab_set-Replaced rounds key_ok data_ok tb key klen text vlen str i some_text fresh there =
    let given : (vlen == 0) ≡ false = ground arith in
    let ptr = (tb.table.arr_data i).val in
    let made : StringTab = record tb { strings = update tb.strings str (some (take vlen text)) } in
    let out : StringTab = record (replaced made (done (some i))) {
      table = revalued tb.table i str;
    } in
    record {
      result = out;
      runs = rw (given, set) (rw (there, set_key_value) (rw (same_number i) refl));
      found =
          rw (find_key-revalued rounds tb.table i str (take klen key), there)
            (rw (same_number i) refl);
      holds = elim (Bool-cases (ptr == 0)) [
        | inl null ↦ rw null (rw (same_number str) refl)
        | inr old ↦
            let kept : (ptr == str) ≡ false = ground (arith, fresh) in
            rw old (rw kept (rw (same_number str) refl))
      ];
      freed = λ some_ptr.
          let old : (ptr == 0) ≡ false = ground (arith, some_ptr) in
          rw old (rw (same_number ptr) refl);
      kept = λ x new old.
          let not_new : (str == x) ≡ false = ground (arith, new) in
          let not_old : (ptr == x) ≡ false = ground (arith, old) in
          elim (Bool-cases (ptr == 0)) [
            | inl null ↦ rw null (rw not_new refl)
            | inr some_ptr ↦ rw some_ptr (rw not_old (rw not_new refl))
          ];
      others = λ k j e ne.
          let whole = take_all (length k) k (omega arith) in
          let other : (i == j) ≡ false = ground (arith, ne) in
          rw (whole, find_key-revalued rounds tb.table i str k, e) (rw other refl);
      absent = λ k e.
          let whole = take_all (length k) k (omega arith) in
          rw (whole, find_key-revalued rounds tb.table i str k, e) refl;
    }
