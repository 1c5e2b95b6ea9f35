-- ===== src/Structure/Str/Terminated.antt =====
-- ef_string_new and ef_string_append: the bytes they hold, and the zero behind them.
use eframework.Base.{
  ℕ, suc, ◌+◌, ◌^◌, ◌≤◌, ◌<◌, ◌≡◌, refl, sym, ◌∙◌, ap, inl, inr, Bool, true, false, Option, none,
  some, List, [], ◌∷◌, ◌++◌, arith, length, take, length-append, length-take, take-take_le,
  take-append_le, take_all, append_assoc, append-nil, ◌==◌, if◌then◌else◌, Option-cases, Bool-cases,
  add_size,
}
use mathlib.Core.Path.{subst}
use eframework.Structure.Memory.{done, Allocator, malloc, block_of, write_at, read_at, strlen}
use eframework.Structure.Memory.Block.{
  Written, malloc-length, realloc-length, take-realloc, write_at-ok,
}
use eframework.Structure.Str.{Str, IsTerminated, contents, length_of, new, regrow, append}

-- The zero that `strlen` finds lies inside of the block.
pub strlen-lt : (b : List ℕ) {n : ℕ} → strlen b ≡ some n → n < length b
unfolding strlen
strlen-lt [] e = cc
strlen-lt (c ∷ b) {n} e = elim (Option-cases (strlen b)) [
  | inl unended ↦ ground arith
  | inr (k, got) ↦ ground (arith, strlen-lt b got)
]

read_at-ok : (b : List ℕ) (n : ℕ) → n ≤ length b → read_at b 0 n ≡ some (take n b)
unfolding read_at
read_at-ok b n h = ground arith

-- A block after bytes and a zero are written to offset `off`.
Ended : (b b' bytes : List ℕ) (off : ℕ) → Type 0
Ended b b' bytes off =
    (off + length bytes < length b')
    × (take (off + length bytes) b' ≡ take off b ++ bytes)
    × (take (suc (off + length bytes)) b' ≡ take (off + length bytes) b' ++ 0 ∷ [])

write_at-Ended :
    (b bytes : List ℕ) (off : ℕ) {b' : List ℕ}
    → off + (length bytes + 1) ≤ length b
    → Written b off (bytes ++ 0 ∷ []) b'
    → Ended b b' bytes off
unfolding Ended
write_at-Ended b bytes off {b'} h w =
    let front = take off b ++ bytes in
    let n : ℕ = off + length bytes in
    let size : length front ≡ n =
      omega (arith, length-append (take off b) bytes, length-take off b) in
    let last : suc n ≡ off + length (bytes ++ 0 ∷ []) =
      omega (arith, length-append bytes (0 ∷ [])) in
    let whole : take (suc n) b' ≡ front ++ 0 ∷ [] =
      ap (λ k. take k b') last ∙ w.prefix ∙ sym (append_assoc (take off b) bytes (0 ∷ [])) in
    let part : take n b' ≡ front =
      sym (take-take_le n (suc n) b' (omega arith))
      ∙ ap (take n) whole
      ∙ take-append_le n front (0 ∷ []) (omega arith)
      ∙ take_all n front (omega arith) in
    (omega (arith, w.size), part, whole ∙ ap (λ t. t ++ 0 ∷ []) (sym part))

-- The same at an offset of 0.
Tail : (bytes b' : List ℕ) (n : ℕ) → Type 0
Tail bytes b' n = (n < length b') × (take n b' ≡ bytes) × (take (suc n) b' ≡ take n b' ++ 0 ∷ [])

-- A new string: NULL, or `len` bytes of the text and a zero.
pub data Created (text : List ℕ) (len : ℕ) : Option Str → Type 0 where
  no_memory : Created text len none
  created :
      (s : Str)
      → s.len ≡ len
      → contents s ≡ take len text
      → IsTerminated s
      → Created text len (some s)

new-done :
    (al al' : Allocator) (sz : Option (List ℕ)) (n : ℕ) {len : ℕ} (b b' : List ℕ)
    → al.grants 16 ≡ true
    → length_of sz n ≡ some len
    → malloc al' (len + 1) (len + 1) ≡ some b
    → len ≤ length (block_of sz)
    → len < 2 ^ 63
    → write_at b 0 (take len (block_of sz) ++ 0 ∷ []) ≡ some b'
    → new al al' sz n ≡ done (some (record { str = some b'; len = len }))
unfolding new
new-done al al' sz n {len} b b' granted e got fits small stored =
    let more : add_size len 1 ≡ len + 1 = omega arith in
    rw (granted, e, more, got, read_at-ok (block_of sz) len fits, stored)

pub new-Created :
    (al al' : Allocator) (sz : Option (List ℕ)) (n : ℕ) {len : ℕ}
    → length_of sz n ≡ some len
    → len ≤ length (block_of sz)
    → len < 2 ^ 63
    → (out : Option Str) × (new al al' sz n ≡ done out) × Created (block_of sz) len out
unfolding new Ended Tail
new-Created al al' sz n {len} e fits small =
    let text = take len (block_of sz) in
    let more : add_size len 1 ≡ len + 1 = omega arith in
    let size : length text ≡ len = omega (arith, length-take len (block_of sz)) in
    elim (Bool-cases (al.grants 16)) [
      | inr refused ↦ (none, rw refused, no_memory)
      | inl granted ↦ elim (Option-cases (malloc al' (len + 1) (len + 1))) [
        | inl failed ↦ (none, rw (granted, e, more, failed), no_memory)
        | inr (b, got) ↦
            let block : length b ≡ len + 1 = malloc-length al' (len + 1) (len + 1) got in
            let total = length-append text (0 ∷ []) in
            let (b', w) = write_at-ok b 0 (text ++ 0 ∷ []) (omega arith) in
            let end = write_at-Ended b text 0 (omega arith) w in
            let at_len : 0 + length text ≡ len = omega arith in
            let ended = subst (λ k. Tail text b' k) at_len end in
            let s : Str = record { str = some b'; len = len } in
            (
              some s,
              new-done al al' sz n b b' granted e got fits small w.result,
              created s refl ended.1 (ended.0, ended.2),
            )
      ]
    ]

-- The block that `ef_string_append` writes to has room for both texts and a zero.
regrow-keeps :
    (al : Allocator) (str : Option (List ℕ)) (k len : ℕ) {b : List ℕ}
    → IsTerminated (record { str = str; len = k })
    → k + len < 2 ^ 63
    → regrow al (record { str = str; len = k }) len ≡ some b
    → (k + (len + 1) ≤ length b) × (take k b ≡ take k (block_of str))
unfolding regrow
regrow-keeps al none k len t small got =
    let size = malloc-length al _ _ got in rw t (omega arith, refl)
regrow-keeps al (some old) k len t small got =
    let size = realloc-length al old _ _ got in
    (omega arith, take-realloc al old _ _ k got (omega arith) (omega arith))

pub append-Appended :
    (al : Allocator) (s : Str) (sz : Option (List ℕ)) (n : ℕ) {len : ℕ}
    → IsTerminated s
    → length_of sz n ≡ some len
    → len ≤ length (block_of sz)
    → s.len + len < 2 ^ 63
    → (ok : Bool) × (s' : Str) × (append al s sz n ≡ done (ok, s'))
      × ((ok ≡ true) → contents s' ≡ contents s ++ take len (block_of sz))
      × ((ok ≡ false) → s' ≡ s)
      × IsTerminated s'
unfolding append Ended Tail
append-Appended al s sz n {len} t e fits small =
    let text = take len (block_of sz) in
    let size : length text ≡ len = omega (arith, length-take len (block_of sz)) in
    let sum : add_size s.len len ≡ s.len + len = omega arith in
    elim (Bool-cases (len == 0)) [
      | inl empty ↦
          let nothing : len ≡ 0 = ground arith in
          (true, s, rw (e, empty, append), λ _. rw (nothing, append-nil), λ f. cc, t)
      | inr some_text ↦ elim (Option-cases (regrow al s len)) [
        | inl failed ↦ (false, s, rw (e, some_text, failed, append), λ f. cc, λ _. refl, t)
        | inr (b, got) ↦
            let kept = regrow-keeps al s.str s.len len t small got in
            let total = length-append text (0 ∷ []) in
            let (b', w) = write_at-ok b s.len (text ++ 0 ∷ []) (omega arith) in
            let end = write_at-Ended b text s.len (omega arith) w in
            let at_len : s.len + length text ≡ s.len + len = omega arith in
            let ended =
              subst (λ k. Tail (contents s ++ text) b' k) at_len
                (end.0, end.1 ∙ ap (λ front. front ++ text) kept.1, end.2) in
            (
              true,
              record { str = some b'; len = s.len + len },
              rw (e, some_text, got, read_at-ok (block_of sz) len fits, w.result, sum, append),
              λ _. ended.1,
              λ f. cc,
              (ended.0, ended.2),
            )
      ]
    ]

-- `ef_string_append` to a string that ends with a zero, of a text that is in its block, up to 2 ^
-- 63 bytes in all, stays within its blocks. It puts the text behind the string, or fails and
-- leaves the contents; either way a zero ends the string.
pub string_append_lem :
    (al : Allocator) (s : Str) (sz : Option (List ℕ)) (n : ℕ) {len : ℕ}
    → IsTerminated s
    → length_of sz n ≡ some len
    → len ≤ length (block_of sz)
    → s.len + len < 2 ^ 63
    → (out : Bool × Str) × (append al s sz n ≡ done out)
      × (contents out.1 ≡ (if out.0 then contents s ++ take len (block_of sz) else contents s))
      × IsTerminated out.1
string_append_lem al s sz n t e fits small =
    let (ok, s', runs, stored, kept, t') = append-Appended al s sz n t e fits small in
    elim (Bool-cases ok) [
      | inl good ↦ ((ok, s'), runs, stored good ∙ rw good refl, t')
      | inr bad ↦ ((ok, s'), runs, ap contents (kept bad) ∙ rw bad refl, t')
    ]
