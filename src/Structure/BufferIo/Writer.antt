-- ===== src/Structure/BufferIo/Writer.antt =====
-- ef_bio_write and ef_bio_writer_flush: the bytes that are sent and those that stay.
use eframework.Base.{
  ℕ, ◌+◌, ◌^◌, ◌≤◌, ◌≡◌, refl, sym, ap, ◌∙◌, inl, inr, true, false, ◌||◌, some, List, [], ◌++◌,
  append-nil, length, length-append, length-take, arith, ltb, leb, ◌==◌, Bool-cases, add_size,
  ◌>>>◌,
}
use eframework.Base.Int.{pos, less}
use eframework.Structure.Memory.{Outcome, done, Allocator, block_of, read_at}
use eframework.Structure.Buffer.{Buffer, IsValid, contents, append}
use eframework.Structure.Buffer.Stored.{buffer_append_lem}
use eframework.Structure.BufferIo.{
  Answer, Sent, Wrote, safe_write, write_through, write_behind, keep, bio_write, flushed, flush,
}
use eframework.Structure.BufferIo.Send.{Takes, Complete, send-Complete, less_mono}

safe_write-Complete :
    (script : List Answer) (bytes : List ℕ)
    → Takes script
    → length bytes ≤ length script
    → (s : Sent) × (safe_write script bytes ≡ done s) × Complete 0 script bytes s
unfolding safe_write
safe_write-Complete script bytes t h = send-Complete script 0 bytes t h

-- The bytes sent, and then those in the buffer, are those of `before` and then `bytes`; the result
-- says that `bytes` are taken. Of the answers, `answers` with those that were used before, no more are used
-- than bytes are sent.
pub record Queues (answers : ℕ) (before bytes : List ℕ) (out : Outcome Wrote) : Type 0 where
  pub wrote : Wrote
  pub runs : out ≡ done wrote
  pub valid : IsValid wrote.buffer
  pub fifo : wrote.bytes ++ contents wrote.buffer ≡ before ++ bytes
  pub retval : less wrote.retval (pos (length bytes)) ≡ false
  pub takes : Takes wrote.rest
  pub enough : answers ≤ length wrote.rest + length wrote.bytes

empty-contents : (buffer : Buffer) → buffer.len ≡ 0 → contents buffer ≡ []
empty-contents buffer e = rw e refl

write_through-Queues :
    (script : List Answer) (buffer : Buffer) (before bytes : List ℕ)
    → IsValid buffer
    → buffer.len ≡ 0
    → Takes script
    → length bytes ≤ length script
    → Queues
        (length script + length before)
        before
        bytes
        (write_through buffer before (safe_write script bytes))
unfolding write_through
write_through-Queues script buffer before bytes v empty t h =
    let (s, sends, c) = safe_write-Complete script bytes t h in
    let sent : before ++ s.bytes ≡ before ++ bytes = ap (λ l. before ++ l) c.bytes in
    record {
      wrote = record {
        retval = s.retval;
        buffer = buffer;
        bytes = before ++ s.bytes;
        rest = s.rest;
      };
      runs = rw (sends, write_through) refl;
      valid = v;
      fifo =
          ap (λ l. (before ++ s.bytes) ++ l) (empty-contents buffer empty)
          ∙ append-nil (before ++ s.bytes)
          ∙ sent;
      retval = less_mono s.retval _ _ c.retval (omega arith);
      takes = c.takes;
      enough = omega (arith, c.enough, length-append before s.bytes, ap length c.bytes);
    }

-- Nothing was sent before.
write_through_first :
    (script : List Answer) (buffer : Buffer) (bytes : List ℕ)
    → IsValid buffer
    → buffer.len ≡ 0
    → Takes script
    → length bytes ≤ length script
    → Queues (length script) [] bytes (write_through buffer [] (safe_write script bytes))
write_through_first script buffer bytes v empty t h =
    let q = write_through-Queues script buffer [] bytes v empty t h in
    record {
      wrote = q.wrote;
      runs = q.runs;
      valid = q.valid;
      fifo = q.fifo;
      retval = q.retval;
      takes = q.takes;
      enough = omega (arith, q.enough);
    }

write_behind-Queues :
    (script : List Answer) (buffer : Buffer) (held bytes : List ℕ)
    → IsValid buffer
    → Takes script
    → length held + length bytes ≤ length script
    → Queues (length script) held bytes (write_behind buffer bytes (safe_write script held))
unfolding write_behind
write_behind-Queues script buffer held bytes v t h =
    let (s, sends, c) = safe_write-Complete script held t (omega arith) in
    let fine : less s.retval (pos 0) ≡ false = less_mono s.retval _ _ c.retval (omega arith) in
    let emptied = record buffer { len = 0 } in
    let q =
      write_through-Queues s.rest emptied s.bytes bytes
        (record { len_in = omega arith; block = v.block; small = v.small }) refl c.takes
        (omega (arith, c.enough)) in
    record {
      wrote = q.wrote;
      runs = rw (sends, fine, write_behind) q.runs;
      valid = q.valid;
      fifo = q.fifo ∙ ap (λ l. l ++ bytes) c.bytes;
      retval = q.retval;
      takes = q.takes;
      enough = omega (arith, q.enough, c.enough, ap length c.bytes);
    }

keep-Queues :
    (rounds : ℕ) (al : Allocator) (script : List Answer) (buffer : Buffer) (bytes : List ℕ)
    → IsValid buffer
    → 2 ≤ rounds
    → buffer.len + length bytes ≤ buffer.cap
    → Takes script
    → Queues
        (length script)
        (contents buffer)
        bytes
        (keep script bytes (append rounds al buffer bytes))
unfolding keep
keep-Queues rounds al script buffer bytes v r fits t =
    let (out, e, st) = buffer_append_lem al buffer bytes rounds v (omega (arith, v.small)) r in
    let good : out.0 ≡ true = ground (arith, st.room) in
    record {
      wrote = record { retval = pos (length bytes); buffer = out.1; bytes = []; rest = script };
      runs = rw (e, good, keep) refl;
      valid = st.valid;
      fifo = st.holds ∙ rw good refl;
      retval = ground arith;
      takes = t;
      enough = omega arith;
    }

-- What the buffer holds can be read.
read-contents :
    (buffer : Buffer)
    → IsValid buffer
    → read_at (block_of buffer.ptr) 0 buffer.len ≡ some (contents buffer)
unfolding read_at
read-contents buffer v =
    let inside : leb (0 + buffer.len) (length (block_of buffer.ptr)) ≡ true =
      ground (arith, v.len_in, v.block) in
    rw inside refl

-- `ef_bio_write` on a valid buffer of less than half of the address space, if each answer of the
-- kernel takes at least one byte and there is an answer for each byte: it ends without a wrong
-- access and with a result that says that all bytes are taken. The bytes that are sent, followed
-- by those in the buffer, are those that were in the buffer, followed by the new ones. Of the
-- kernel's answers no more are used than bytes are sent. The buffer stays valid.
pub bio_write_lem :
    (rounds : ℕ) (al : Allocator) (script : List Answer) (buffer : Buffer) (bytes : List ℕ)
    → IsValid buffer
    → 2 ≤ rounds
    → buffer.len + length bytes ≤ 2 ^ 63
    → Takes script
    → buffer.len + length bytes ≤ length script
    → Queues (length script) (contents buffer) bytes (bio_write rounds al script buffer bytes)
unfolding bio_write
bio_write_lem rounds al script buffer bytes v r small t h =
    let direct =
      ltb buffer.cap (add_size buffer.len (length bytes))
      || ltb (buffer.cap >>> 2) (length bytes) in
    elim (Bool-cases direct) [
      | inl through ↦ elim (Bool-cases (buffer.len == 0)) [
        | inl empty ↦
            rw (through, empty, bio_write, empty-contents buffer (ground arith))
              (write_through_first script buffer bytes v (ground arith) t (omega arith))
        | inr held ↦
            rw (through, held, read-contents buffer v, bio_write)
              (write_behind-Queues script buffer (contents buffer) bytes v t
                (omega (arith, length-take buffer.len (block_of buffer.ptr))))
      ]
      | inr small_one ↦
          rw (small_one, bio_write) (keep-Queues rounds al script buffer bytes v r (ground arith) t)
    ]

-- `ef_bio_writer_flush` of a valid buffer, if each answer of the kernel takes at least one byte
-- and there is an answer for each byte, sends exactly what is held and leaves a valid, empty
-- buffer.
pub flush_lem :
    (script : List Answer) (buffer : Buffer)
    → IsValid buffer
    → Takes script
    → buffer.len ≤ length script
    → (w : Wrote) × (flush script buffer ≡ done w)
      × (IsValid w.buffer × ((w.buffer.len ≡ 0) × (w.bytes ≡ contents buffer)))
unfolding flush flushed
flush_lem script buffer v t h = elim (Bool-cases (buffer.len == 0)) [
  | inl empty ↦ (
    record { retval = pos 0; buffer = buffer; bytes = []; rest = script },
    rw (empty, flush) refl,
    (v, (ground arith, sym (empty-contents buffer (ground arith)))),
  )
  | inr held ↦
      let (s, sends, c) =
        safe_write-Complete script (contents buffer) t
          (omega (arith, length-take buffer.len (block_of buffer.ptr))) in
      let fine : less s.retval (pos 0) ≡ false = less_mono s.retval _ _ c.retval (omega arith) in
      (
        record {
          retval = s.retval;
          buffer = record buffer { len = 0 };
          bytes = s.bytes;
          rest = s.rest;
        },
        rw (held, read-contents buffer v, sends, fine, flush, flushed) refl,
        (record { len_in = omega arith; block = v.block; small = v.small }, (refl, c.bytes)),
      )
]
