-- ===== src/Structure/BufferIo/Skip.antt =====
-- ef_bio_reader_skip at the end of the stream.
use eframework.Base.{
  ℕ, zero, suc, ◌+◌, ◌-◌, ◌≤◌, ◌<◌, ◌≡◌, refl, false, some, List, [], ◌∷◌, arith, ltb, leb,
  if◌then◌else◌, sub_size,
}
use eframework.Base.Int.{pos}
use eframework.Structure.Memory.{done, unfinished, block_of, write_at}
use eframework.Structure.Buffer.{IsValid}
use eframework.Structure.BufferIo.Reader.{Input, ended, Reader, receive, safe_read, skip_loop, skip}

-- The kernel says that the stream has ended, as often as it is asked.
abbrev pub endings : ℕ → List Input
endings zero = []
endings (suc n) = ended 0 ∷ endings n

safe_read-ended :
    (n need : ℕ)
    → 1 ≤ need
    → safe_read (endings (suc n)) need need
      ≡ done (record { retval = pos 0; got = []; rest = endings n })
unfolding safe_read receive
safe_read-ended n need h = ground arith

write_nothing : (b : List ℕ) → write_at b 0 [] ≡ some b
unfolding write_at
write_nothing b = ground arith

skip_loop-unfinished :
    (rounds : ℕ) (reader : Reader) (len remain : ℕ)
    → 1 ≤ reader.buffer.cap
    → skip_loop rounds (endings rounds) reader len (suc remain) ≡ unfinished
unfolding skip_loop
skip_loop-unfinished zero reader len remain h = refl
skip_loop-unfinished (suc rounds) reader len remain h =
    let need = if ltb (suc remain) reader.buffer.cap then suc remain else reader.buffer.cap in
    let asks : 1 ≤ need = ground arith in
    let all_left : suc remain - 0 ≡ suc remain = omega arith in
    rw
      (
        safe_read-ended rounds need asks,
        write_nothing (block_of reader.buffer.ptr),
        all_left,
        skip_loop,
      )
      (skip_loop-unfinished rounds _ len remain h)

-- At the end of the stream, `ef_bio_reader_skip` over more than what is held in a valid buffer
-- with some capacity does not end in any number of rounds.
pub skip-unfinished :
    (rounds : ℕ) (reader : Reader) (len : ℕ)
    → IsValid reader.buffer
    → 1 ≤ reader.buffer.cap
    → reader.offset ≤ reader.buffer.len
    → reader.buffer.len < reader.offset + len
    → skip rounds (endings rounds) reader len ≡ unfinished
unfolding skip
skip-unfinished rounds reader len v c h over =
    let held : leb len (sub_size reader.buffer.len reader.offset) ≡ false =
      ground (arith, v.small, v.len_in) in
    let remain = len + reader.offset - reader.buffer.len - 1 in
    let some_left : len + reader.offset - reader.buffer.len ≡ suc remain = omega arith in
    rw (held, some_left) (skip_loop-unfinished rounds _ len remain c)
