-- ===== src/Structure/BufferIo.antt =====
-- src/structure/bufferio.c: buffered reading and writing on a descriptor. The kernel's answers are a
-- script; a call that is still in its loop when the script ends is `unfinished`. Bytes that the
-- kernel has taken or given are handed on.
pub mod Send
pub mod Writer
pub mod Reader
pub mod Refill
pub mod Skip
mod Tests
use eframework.Base.{
  ℕ, zero, suc, ◌+◌, ◌-◌, ◌^◌, Bool, true, false, not, ◌&&◌, ◌||◌, Option, none, some, List, [],
  ◌∷◌, ◌++◌, length, take, drop, ltb, leb, ◌==◌, if◌then◌else◌, add_size, sub_size, ◌>>>◌,
}
use eframework.Base.Int.{ℤ, pos, negsuc, less, not_less}
use eframework.Structure.Memory.{
  Outcome, done, fault, unfinished, Allocator, block_of, rewritten, read_at, write_at,
}
use eframework.Structure.Buffer.{Buffer, append}

-- What `ef_wrap_write` returns, and `errno` after it.
pub data Answer : Type 0 where
  answer : (retval : ℤ) → (errno : ℕ) → Answer

abbrev pub eintr : ℕ
eintr = 4

-- Whether an answer that is not positive is an error, and not an interruption.
abbrev pub is_error : (errno : ℕ) → Bool
is_error errno = not (errno == 0) && not (errno == eintr)

-- What `ef_safe_write` gives: its result, the bytes that the kernel took, and the rest of the script.
pub record Sent : Type 0 where
  pub retval : ℤ
  pub bytes : List ℕ
  pub rest : List Answer

-- One more piece was sent before.
abbrev pub after_piece : List ℕ → Outcome Sent → Outcome Sent
after_piece piece (done s) = done (record s { bytes = piece ++ s.bytes })
after_piece piece fault = fault
after_piece piece unfinished = unfinished

-- The loop of `ef_safe_write`: `left` are the bytes from `offset` on.
unfoldable pub send : List Answer → (offset : ℕ) → (left : List ℕ) → Outcome Sent
send script offset [] = done (record { retval = pos offset; bytes = []; rest = script })
send [] offset (b ∷ left) = unfinished
send (answer (pos (suc n)) errno ∷ script) offset (b ∷ left) =
    after_piece (take (suc n) (b ∷ left)) (send script (offset + suc n) (drop n left))
send (answer (pos zero) errno ∷ script) offset (b ∷ left) =
    let again = send script offset (b ∷ left) in
    if is_error errno then done (record { retval = pos 0; bytes = []; rest = script }) else again
send (answer (negsuc n) errno ∷ script) offset (b ∷ left) =
    let again = send script offset (b ∷ left) in
    if is_error errno then done (record { retval = negsuc n; bytes = []; rest = script }) else again

-- `ef_safe_write`.
unfoldable pub safe_write : List Answer → List ℕ → Outcome Sent
safe_write script bytes = send script 0 bytes

-- `ef_bio_write`, with the rounds that `ef_buffer_append` may take: the result, the writer's buffer,
-- the bytes that the kernel took, and the rest of the script.
pub record Wrote : Type 0 where
  pub retval : ℤ
  pub buffer : Buffer
  pub bytes : List ℕ
  pub rest : List Answer

-- The buffer is empty and the bytes go straight to the kernel.
unfoldable pub write_through : Buffer → (before : List ℕ) → Outcome Sent → Outcome Wrote
write_through buffer before (done s) =
    done (record { retval = s.retval; buffer = buffer; bytes = before ++ s.bytes; rest = s.rest })
write_through buffer before fault = fault
write_through buffer before unfinished = unfinished

-- The bytes that the buffer holds are sent, and then `bytes`, as far as no error stops it.
unfoldable pub write_behind : Buffer → List ℕ → Outcome Sent → Outcome Wrote
write_behind buffer bytes (done s) =
    if less s.retval (pos 0)
    then done (record { retval = negsuc 0; buffer = buffer; bytes = s.bytes; rest = s.rest })
    else write_through (record buffer { len = 0 }) s.bytes (safe_write s.rest bytes)
write_behind buffer bytes fault = fault
write_behind buffer bytes unfinished = unfinished

-- What `ef_bio_write` makes of the result of `ef_buffer_append`.
unfoldable pub keep : List Answer → List ℕ → Outcome (Bool × Buffer) → Outcome Wrote
keep script bytes (done out) = done (record {
  retval = if out.0 then pos (length bytes) else negsuc 0;
  buffer = out.1;
  bytes = [];
  rest = script;
})
keep script bytes fault = fault
keep script bytes unfinished = unfinished

unfoldable pub bio_write : (rounds : ℕ) → Allocator → List Answer → Buffer → List ℕ → Outcome Wrote
bio_write rounds al script buffer bytes =
    if ltb buffer.cap (add_size buffer.len (length bytes)) || ltb (buffer.cap >>> 2) (length bytes)
    then if buffer.len == 0
      then write_through buffer [] (safe_write script bytes)
      else elim (read_at (block_of buffer.ptr) 0 buffer.len) [
        | none ↦ fault
        | some held ↦ write_behind buffer bytes (safe_write script held)
      ]
    else keep script bytes (append rounds al buffer bytes)

-- `ef_bio_writer_flush`.
unfoldable pub flushed : Buffer → Outcome Sent → Outcome Wrote
flushed buffer (done s) = done (record {
  retval = s.retval;
  buffer = if less s.retval (pos 0) then buffer else record buffer { len = 0 };
  bytes = s.bytes;
  rest = s.rest;
})
flushed buffer fault = fault
flushed buffer unfinished = unfinished

unfoldable pub flush : List Answer → Buffer → Outcome Wrote
flush script buffer =
    if buffer.len == 0
    then done (record { retval = pos 0; buffer = buffer; bytes = []; rest = script })
    else elim (read_at (block_of buffer.ptr) 0 buffer.len) [
      | none ↦ fault
      | some held ↦ flushed buffer (safe_write script held)
    ]
