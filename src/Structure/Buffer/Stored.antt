-- ===== src/Structure/Buffer/Stored.antt =====
-- ef_buffer_append: what the buffer holds after it.
use eframework.Base.{
  ℕ, zero, suc, ◌+◌, ◌^◌, ◌≤◌, ◌≡◌, refl, ap, ◌∙◌, inl, inr, Bool, true, false, not, ◌&&◌, List,
  ◌++◌, arith, length, leb, if◌then◌else◌, Bool-cases, sub_size,
}
use eframework.Structure.Memory.{done, Allocator}
use eframework.Structure.Buffer.{Buffer, IsValid, contents, append}
use eframework.Structure.Buffer.Valid.{Appended, append-Appended, copy_data-Appended, fits-again}

-- What `ef_buffer_append` returns, with what the buffer holds by the result.
pub record Stored (buf : Buffer) (bytes : List ℕ) (out : Bool × Buffer) : Type 0 where
  pub valid : IsValid out.1
  pub holds : contents out.1 ≡ (if out.0 then contents buf ++ bytes else contents buf)
  pub room : (leb (buf.len + length bytes) buf.cap && not out.0) ≡ false

buffer_append-fits :
    (al : Allocator) (buf : Buffer) (bytes : List ℕ) (rounds : ℕ)
    → IsValid buf
    → buf.len + length bytes ≤ buf.cap
    → (out : Bool × Buffer) × (append (suc rounds) al buf bytes ≡ done out)
      × (out.0 ≡ true)
      × Appended buf bytes out
unfolding append
buffer_append-fits al buf bytes rounds v h =
    let fits : leb (length bytes) (sub_size buf.cap buf.len) ≡ true =
      fits-again buf (length bytes) v (omega arith) in
    let (out, e, good, a) = copy_data-Appended buf bytes v (omega arith) in
    (out, rw fits e, good, a)

buffer_holds :
    (buf : Buffer) (bytes : List ℕ) (out : Bool × Buffer)
    → Appended buf bytes out
    → contents out.1 ≡ (if out.0 then contents buf ++ bytes else contents buf)
buffer_holds buf bytes out a = elim (Bool-cases out.0) [
  | inl good ↦ a.stored good ∙ rw good refl
  | inr bad ↦ ap contents (a.failed bad) ∙ rw bad refl
]

-- `ef_buffer_append` on a valid buffer, of up to half of the address space with the new bytes,
-- ends after at most two rounds and within its block. The bytes stand behind those that were
-- there, or it has failed and the contents are as before; it does not fail if there is room. The
-- buffer stays valid.
pub buffer_append_lem :
    (al : Allocator) (buf : Buffer) (bytes : List ℕ) (rounds : ℕ)
    → IsValid buf
    → buf.len + length bytes ≤ 2 ^ 63
    → 2 ≤ rounds
    → (out : Bool × Buffer) × (append rounds al buf bytes ≡ done out) × Stored buf bytes out
buffer_append_lem al buf bytes zero v h r = absurd (omega arith)
buffer_append_lem al buf bytes (suc rounds) v h r =
    elim (Bool-cases (leb (buf.len + length bytes) buf.cap)) [
      | inl fits ↦
          let (out, e, good, a) = buffer_append-fits al buf bytes rounds v (ground arith) in
          (
            out,
            e,
            record {
              valid = a.valid;
              holds = buffer_holds buf bytes out a;
              room = rw (fits, good) refl;
            },
          )
      | inr full ↦
          let (out, e, a) = append-Appended al buf bytes (suc rounds) v h r in
          (
            out,
            e,
            record { valid = a.valid; holds = buffer_holds buf bytes out a; room = rw full refl },
          )
    ]
