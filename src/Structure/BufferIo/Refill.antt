-- ===== src/Structure/BufferIo/Refill.antt =====
-- ef_bio_read where some of the bytes are held already and the rest is read into the buffer.
use eframework.Base.{
  ℕ, ◌+◌, ◌-◌, ◌*◌, ◌≤◌, ◌<◌, ◌≡◌, refl, ap, ◌∙◌, true, false, List, [], ◌∷◌, ◌++◌, append-nil,
  length, take, drop, length-take, length-drop, length-append, take_all, arith, ltb, leb, sub_size,
  ◌>>>◌,
}
use eframework.Base.Int.{pos}
use eframework.Structure.Memory.{Outcome, done, block_of, rewritten, read_at}
use eframework.Structure.Memory.Block.{write_at-ok}
use eframework.Structure.Buffer.{IsValid}
use eframework.Structure.BufferIo.Reader.{
  Input, bytes, ended, refused, Reader, Read, receive, safe_read, refill, bio_read,
}

receive-full :
    (script : List Input) (offset len cap : ℕ)
    → len ≤ offset
    → receive script offset len cap ≡ done (record { retval = pos offset; got = []; rest = script })
unfolding receive
receive-full [] offset len cap h = ground arith
receive-full (bytes first others ∷ script) offset len cap h = ground arith
receive-full (ended errno ∷ script) offset len cap h = ground arith
receive-full (refused code errno ∷ script) offset len cap h = ground arith

-- One answer that has all that is needed.
safe_read-one :
    (first : ℕ) (others : List ℕ) (script : List Input) (need cap : ℕ)
    → 1 ≤ need
    → need ≤ length (first ∷ others)
    → length (first ∷ others) ≤ cap
    → safe_read (bytes first others ∷ script) need cap
      ≡ done
          (record { retval = pos (length (first ∷ others)); got = first ∷ others; rest = script })
unfolding safe_read receive
safe_read-one first others script need cap p q r =
    let input = first ∷ others in
    let below : ltb 0 need ≡ true = ground arith in
    let large : ltb cap need ≡ false = ground (arith, q, r) in
    let size : cap - 0 ≡ cap = omega arith in
    let piece : take cap input ≡ input = take_all cap input r in
    let sum : 0 + length input ≡ length input = omega arith in
    let full = receive-full script (0 + length input) need cap (omega arith) in
    rw (below, large, size, piece, full, sum, safe_read, receive)
      (ap (λ l. done (record { retval = pos (length input); got = l; rest = script }))
        (append-nil input))

-- The bytes that were held.
abbrev pub held_in : Reader → List ℕ
held_in reader =
    take (reader.buffer.len - reader.offset) (drop reader.offset (block_of reader.buffer.ptr))

-- What a call gives whose result counts only the bytes that were not held.
pub record Short (reader : Reader) (len : ℕ) (out : Outcome Read) : Type 0 where
  pub read : Read
  pub runs : out ≡ done read
  pub all : length read.got ≡ len
  pub retval : read.retval ≡ pos (len - (reader.buffer.len - reader.offset))

-- Where `ef_bio_read` takes some bytes from a valid buffer and needs at most a quarter of its
-- capacity more, and one answer of the kernel has these, the caller gets all the bytes that it
-- asks for, and yet the result is the number of those that came from the kernel.
pub bio_read-Short :
    (reader : Reader) (first : ℕ) (others : List ℕ) (script : List Input) (len : ℕ)
    → IsValid reader.buffer
    → reader.offset ≤ reader.buffer.len
    → reader.buffer.len < reader.offset + len
    → (len - (reader.buffer.len - reader.offset)) * 4 ≤ reader.buffer.cap
    → len ≤ reader.buffer.len - reader.offset + length (first ∷ others)
    → length (first ∷ others) ≤ reader.buffer.cap
    → Short reader len (bio_read (bytes first others ∷ script) reader len)
unfolding bio_read read_at refill
bio_read-Short reader first others script len v h less_held small enough fits =
    let input = first ∷ others in
    let held = reader.buffer.len - reader.offset in
    let need = len - held in
    let there : sub_size reader.buffer.len reader.offset ≡ held =
      omega (arith, v.small, v.len_in) in
    let more : leb len held ≡ false = ground arith in
    let little : ltb (reader.buffer.cap >>> 2) need ≡ false = ground arith in
    let inside : leb (reader.offset + held) (length (block_of reader.buffer.ptr)) ≡ true =
      ground (arith, v.block, v.len_in) in
    let one =
      safe_read-one first others script need reader.buffer.cap (omega arith) (omega arith) fits in
    let (b, w) = write_at-ok (block_of reader.buffer.ptr) 0 input (omega (arith, v.block)) in
    let enough_read : ltb (length input) need ≡ false = ground arith in
    record {
      read = record {
        retval = pos need;
        got = held_in reader ++ take need b;
        reader = record {
          offset = need;
          buffer = record reader.buffer { ptr = rewritten reader.buffer.ptr b; len = length input };
        };
        rest = script;
      };
      runs =
          rw
            (
              there, more, inside, there, little, one, w.result, there, enough_read, bio_read,
              read_at, refill,
            )
            refl;
      all =
          length-append (held_in reader) (take need b)
          ∙ omega (
            arith,
            length-take held (drop reader.offset (block_of reader.buffer.ptr)),
            length-drop reader.offset (block_of reader.buffer.ptr),
            length-take need b,
            w.size,
            v.block,
            v.len_in,
          );
      retval = refl;
    }
