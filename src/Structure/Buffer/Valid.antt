-- ===== src/Structure/Buffer/Valid.antt =====
-- ef_buffer_new, ef_buffer_expand and ef_buffer_append: validity and contents.
use eframework.Base.{
  ℕ, zero, suc, ◌+◌, ◌^◌, ◌≤◌, ◌≡◌, refl, ap, ◌∙◌, inl, inr, Bool, true, false, Option, none, some,
  List, [], ◌++◌, arith, length, take, leb, Bool-cases, Option-cases, add_size, sub_size,
}
use eframework.Structure.Util.{resize}
use eframework.Structure.Util.Resize.{resize-bounds}
use eframework.Structure.Memory.{done, Allocator, malloc, realloc, block_of, rewritten}
use eframework.Structure.Memory.Block.{
  malloc-length, realloc-length, take-realloc, write_at-ok, rewritten-block,
}
use eframework.Structure.Buffer.{Buffer, IsValid, contents, new, regrow, expand, copy_data, append}

-- A new buffer is valid and empty, and has room for what was asked.
pub new-IsValid :
    (al al' : Allocator) (cap : ℕ) {buf : Buffer}
    → cap ≤ 2 ^ 63
    → new al al' cap ≡ some buf
    → IsValid buf × (contents buf ≡ []) × (cap ≤ buf.cap)
unfolding new
new-IsValid al al' zero {buf} h e = ground (arith, resize-bounds 0)
new-IsValid al al' (suc cap) {buf} h e =
    let n : ℕ = resize (suc cap) 0 in
    let bounds = resize-bounds (suc cap) (omega arith) h in
    elim (Option-cases (malloc al' n n)) [
      | inl failed ↦ ground arith
      | inr (b, got) ↦ ground (arith, malloc-length al' n n got)
    ]

-- What `ef_buffer_expand` leaves behind.
pub record Expanded (buf : Buffer) (n : ℕ) (out : Bool × Buffer) : Type 0 where
  pub valid : IsValid out.1
  pub same_len : out.1.len ≡ buf.len
  pub same_bytes : contents out.1 ≡ contents buf
  pub room : (out.0 ≡ true) → n + out.1.len ≤ out.1.cap
  pub failed : (out.0 ≡ false) → out.1 ≡ buf

regrow-keeps :
    (al : Allocator) (ptr : Option (List ℕ)) (cap k : ℕ) {b : List ℕ}
    → regrow al ptr cap ≡ some b
    → k ≤ length (block_of ptr)
    → k ≤ cap
    → (length b ≡ cap) × (take k b ≡ take k (block_of ptr))
unfolding regrow
regrow-keeps al none cap zero e p q = (malloc-length al cap cap e, refl)
regrow-keeps al none cap (suc k) e p q = absurd (omega arith)
regrow-keeps al (some b) cap k e p q =
    (realloc-length al b cap cap e, take-realloc al b cap cap k e p q)

-- `ef_buffer_expand` keeps a valid buffer's bytes; on success there is room for `n` more, and on
-- failure the buffer is as before.
pub expand-Expanded :
    (al : Allocator) (buf : Buffer) (n : ℕ)
    → IsValid buf
    → buf.len + n ≤ 2 ^ 63
    → Expanded buf n (expand al buf n)
unfolding expand
expand-Expanded al buf n v h = elim (Bool-cases (leb n (sub_size buf.cap buf.len))) [
  | inl fits ↦ rw fits (record {
    valid = v;
    same_len = refl;
    same_bytes = refl;
    room = λ _. ground arith;
    failed = λ _. refl;
  })
  | inr full ↦
      let cap : ℕ = resize (add_size buf.len n) 0 in
      let wraps : add_size buf.len n ≡ buf.len + n = omega arith in
      let needed : 1 ≤ n = ground arith in
      let bounds = resize-bounds (buf.len + n) (omega arith) h in
      let same : cap ≡ resize (buf.len + n) 0 = ap (λ k. resize k 0) wraps in
      elim (Option-cases (regrow al buf.ptr cap)) [
        | inl none_left ↦
            rw (full, none_left)
              (record {
                valid = v;
                same_len = refl;
                same_bytes = refl;
                room = λ e. cc;
                failed = λ _. refl;
              })
        | inr (b, got) ↦
            let kept = regrow-keeps al buf.ptr cap buf.len got (omega arith) (omega arith) in
            rw (full, got)
              (record {
                valid = record { len_in = omega arith; block = kept.0; small = omega arith };
                same_len = refl;
                same_bytes = kept.1;
                room = λ _. omega arith;
                failed = λ e. cc;
              })
      ]
]

-- What `ef_buffer_append` returns for a valid buffer.
pub record Appended (buf : Buffer) (bytes : List ℕ) (out : Bool × Buffer) : Type 0 where
  pub valid : IsValid out.1
  pub stored : (out.0 ≡ true) → contents out.1 ≡ contents buf ++ bytes
  pub failed : (out.0 ≡ false) → out.1 ≡ buf

pub copy_data-Appended :
    (buf : Buffer) (bytes : List ℕ)
    → IsValid buf
    → length bytes + buf.len ≤ buf.cap
    → (out : Bool × Buffer) × (copy_data buf bytes ≡ done out)
      × (out.0 ≡ true)
      × Appended buf bytes out
unfolding copy_data
copy_data-Appended buf bytes v h =
    let (b, w) = write_at-ok (block_of buf.ptr) buf.len bytes (omega arith) in
    let sum : add_size buf.len (length bytes) ≡ buf.len + length bytes = omega arith in
    let out : Bool × Buffer =
      (true, record buf { ptr = rewritten buf.ptr b; len = add_size buf.len (length bytes) }) in
    let same : block_of (rewritten buf.ptr b) ≡ b = rewritten-block buf.ptr b w.size in
    (
      out,
      rw (w.result, copy_data),
      refl,
      record {
        valid = record {
          len_in = omega arith;
          block = rw same (w.size ∙ v.block);
          small = v.small;
        };
        stored = λ _. rw (same, sum) w.prefix;
        failed = λ e. cc;
      },
    )

pub fits-again :
    (buf : Buffer) (n : ℕ)
    → IsValid buf
    → n + buf.len ≤ buf.cap
    → leb n (sub_size buf.cap buf.len) ≡ true
fits-again buf n v h = ground arith

pub append-Appended :
    (al : Allocator) (buf : Buffer) (bytes : List ℕ) (rounds : ℕ)
    → IsValid buf
    → buf.len + length bytes ≤ 2 ^ 63
    → 2 ≤ rounds
    → (out : Bool × Buffer) × (append rounds al buf bytes ≡ done out) × Appended buf bytes out
unfolding append
append-Appended al buf bytes zero v h r = absurd (omega arith)
append-Appended al buf bytes (suc zero) v h r = absurd (omega arith)
append-Appended al buf bytes (suc (suc rounds)) v h r =
    let n : ℕ = length bytes in
    elim (Bool-cases (leb n (sub_size buf.cap buf.len))) [
      | inl fits ↦
          let (out, e, _, a) = copy_data-Appended buf bytes v (ground arith) in (out, rw fits e, a)
      | inr full ↦ elim (Bool-cases (expand al buf n).0) [
        | inr failed ↦ (
          (false, buf),
          rw (full, failed),
          record { valid = v; stored = λ e. cc; failed = λ _. refl },
        )
        | inl grown ↦
            let buf' : Buffer = (expand al buf n).1 in
            let x = expand-Expanded al buf n v h in
            let room : n + buf'.len ≤ buf'.cap = x.room grown in
            let (out, e, good, a) = copy_data-Appended buf' bytes x.valid room in
            let fits : leb n (sub_size buf'.cap buf'.len) ≡ true = fits-again buf' n x.valid room in
            (
              out,
              rw (full, grown, fits) e,
              record {
                valid = a.valid;
                stored = λ g. a.stored g ∙ ap (λ c. c ++ bytes) x.same_bytes;
                failed = λ f. cc;
              },
            )
      ]
    ]

-- An allocator that grants everything.
abbrev pub Grants : Allocator → Type 0
Grants al = (n : ℕ) → al.grants n ≡ true

expand-granted : (al : Allocator) (buf : Buffer) (n : ℕ) → Grants al → (expand al buf n).0 ≡ true
unfolding expand regrow malloc realloc
expand-granted al buf n g =
    let asked = g (resize (add_size buf.len n) 0) in
    elim (Option-cases buf.ptr) [
      | inl null ↦ ground (arith, asked, null)
      | inr (b, some_block) ↦ ground (arith, asked, some_block)
    ]

-- With such an allocator `ef_buffer_append` succeeds.
pub append-granted :
    (al : Allocator) (buf : Buffer) (bytes : List ℕ)
    → Grants al
    → IsValid buf
    → buf.len + length bytes ≤ 2 ^ 63
    → (buf' : Buffer) × (append 2 al buf bytes ≡ done (true, buf'))
      × IsValid buf'
      × (contents buf' ≡ contents buf ++ bytes)
unfolding append
append-granted al buf bytes g v h =
    let n : ℕ = length bytes in
    elim (Bool-cases (leb n (sub_size buf.cap buf.len))) [
      | inl fits ↦
          let (out, e, good, a) = copy_data-Appended buf bytes v (ground arith) in
          (out.1, rw fits (e ∙ ap (λ b. done (b, out.1)) good), a.valid, a.stored good)
      | inr full ↦
          let grown = expand-granted al buf n g in
          let buf' : Buffer = (expand al buf n).1 in
          let x = expand-Expanded al buf n v h in
          let room : n + buf'.len ≤ buf'.cap = x.room grown in
          let (out, e, good, a) = copy_data-Appended buf' bytes x.valid room in
          let fits : leb n (sub_size buf'.cap buf'.len) ≡ true = fits-again buf' n x.valid room in
          (
            out.1,
            rw (full, grown, fits) (e ∙ ap (λ b. done (b, out.1)) good),
            a.valid,
            a.stored good ∙ ap (λ c. c ++ bytes) x.same_bytes,
          )
    ]
