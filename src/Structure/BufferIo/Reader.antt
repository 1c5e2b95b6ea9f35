-- ===== src/Structure/BufferIo/Reader.antt =====
-- The reading half of src/structure/bufferio.c.
use eframework.Base.{
  ℕ, zero, suc, ◌+◌, ◌-◌, none, some, List, [], ◌∷◌, ◌++◌, length, take, ltb, leb, ◌==◌,
  if◌then◌else◌, sub_size, ◌>>>◌,
}
use eframework.Base.Int.{ℤ, pos, negsuc}
use eframework.Structure.Memory.{
  Outcome, done, fault, unfinished, block_of, rewritten, read_at, write_at,
}
use eframework.Structure.Buffer.{Buffer}
use eframework.Structure.BufferIo.{is_error}

-- One call of `ef_wrap_read`: the bytes that it gives (as many as are asked for at most), the end of
-- the stream, or a negative result with `errno`.
pub data Input : Type 0 where
  bytes : (first : ℕ) → (others : List ℕ) → Input
  ended : (errno : ℕ) → Input
  refused : (code errno : ℕ) → Input

-- What `ef_safe_read` gives: its result, the bytes it has read, and the rest of the script.
pub record Received : Type 0 where
  pub retval : ℤ
  pub got : List ℕ
  pub rest : List Input

abbrev pub after_input : List ℕ → Outcome Received → Outcome Received
after_input piece (done r) = done (record r { got = piece ++ r.got })
after_input piece fault = fault
after_input piece unfinished = unfinished

-- The loop of `ef_safe_read`: `cap - offset` bytes are asked for until `len` are there.
unfoldable pub receive : List Input → (offset len cap : ℕ) → Outcome Received
receive [] offset len cap =
    if ltb offset len
    then unfinished
    else done (record { retval = pos offset; got = []; rest = [] })
receive (bytes first others ∷ script) offset len cap =
    let piece = take (cap - offset) (first ∷ others) in
    let more = receive script (offset + length piece) len cap in
    if ltb offset len
    then after_input piece more
    else done (record { retval = pos offset; got = []; rest = bytes first others ∷ script })
receive (ended errno ∷ script) offset len cap =
    let more = receive script offset len cap in
    if ltb offset len
    then if errno == 0
      then done (record { retval = pos offset; got = []; rest = script })
      else if is_error errno
      then done (record { retval = pos 0; got = []; rest = script })
      else more
    else done (record { retval = pos offset; got = []; rest = ended errno ∷ script })
receive (refused code errno ∷ script) offset len cap =
    let more = receive script offset len cap in
    if ltb offset len
    then if is_error errno
      then done (record { retval = negsuc code; got = []; rest = script })
      else more
    else done (record { retval = pos offset; got = []; rest = refused code errno ∷ script })

-- `ef_safe_read`.
unfoldable pub safe_read : List Input → (len cap : ℕ) → Outcome Received
safe_read script len cap = receive script 0 len (if ltb cap len then len else cap)

-- `ef_bio_reader_t` without the descriptor.
pub record Reader : Type 0 where
  pub offset : ℕ
  pub buffer : Buffer

-- `ef_bio_read`: its result, the bytes in the caller's array, the reader, and the script.
pub record Read : Type 0 where
  pub retval : ℤ
  pub got : List ℕ
  pub reader : Reader
  pub rest : List Input

-- The bytes that were held, followed by what the kernel gives for a large rest.
unfoldable pub read_through : Reader → (held : List ℕ) → Outcome Received → Outcome Read
read_through reader held (done r) =
    done (record { retval = r.retval; got = held ++ r.got; reader = reader; rest = r.rest })
read_through reader held fault = fault
read_through reader held unfinished = unfinished

-- The same for a small rest: the buffer is filled first. Its length is what was read.
unfoldable pub refill : Reader → (held : List ℕ) → (need : ℕ) → Outcome Received → Outcome Read
refill reader held need (done r) = elim r.retval [
  | negsuc code ↦ done (record { retval = negsuc code; got = held; reader = reader; rest = r.rest })
  | pos reads ↦ elim (write_at (block_of reader.buffer.ptr) 0 r.got) [
    | none ↦ fault
    | some b ↦
        let need' = if ltb reads need then reads else need in
        done (record {
          retval = pos need';
          got = held ++ take need' b;
          reader = record {
            offset = need';
            buffer = record reader.buffer { ptr = rewritten reader.buffer.ptr b; len = reads };
          };
          rest = r.rest;
        })
  ]
]
refill reader held need fault = fault
refill reader held need unfinished = unfinished

unfoldable pub bio_read : List Input → Reader → (len : ℕ) → Outcome Read
bio_read script reader len =
    let held = sub_size reader.buffer.len reader.offset in
    if leb len held
    then elim (read_at (block_of reader.buffer.ptr) reader.offset len) [
      | none ↦ fault
      | some got ↦ done (record {
        retval = pos len;
        got = got;
        reader = record reader { offset = reader.offset + len };
        rest = script;
      })
    ]
    else elim (read_at (block_of reader.buffer.ptr) reader.offset held) [
      | none ↦ fault
      | some got ↦
          let emptied : Reader = record { offset = 0; buffer = record reader.buffer { len = 0 } } in
          let need = len - held in
          if ltb (reader.buffer.cap >>> 2) need
          then read_through emptied got (safe_read script need 0)
          else refill emptied got need (safe_read script need reader.buffer.cap)
    ]

-- The loop of `ef_bio_reader_skip`, with the number of its rounds: `some` result.
unfoldable pub skip_loop :
    (rounds : ℕ) → List Input → Reader → (len remain : ℕ) → Outcome (ℤ × Reader)
skip_loop rounds script reader len zero = done (pos len, reader)
skip_loop zero script reader len (suc remain) = unfinished
skip_loop (suc rounds) script reader len (suc remain) =
    let need = if ltb (suc remain) reader.buffer.cap then suc remain else reader.buffer.cap in
    elim (safe_read script need need) [
      | fault ↦ fault
      | unfinished ↦ unfinished
      | done r ↦ elim r.retval [
        | negsuc code ↦ done (negsuc code, reader)
        | pos reads ↦ elim (write_at (block_of reader.buffer.ptr) 0 r.got) [
          | none ↦ fault
          | some b ↦
              skip_loop rounds r.rest
                (record reader {
                  buffer = record reader.buffer { ptr = rewritten reader.buffer.ptr b };
                })
                len (suc remain - reads)
        ]
      ]
    ]

-- `ef_bio_reader_skip`.
unfoldable pub skip : (rounds : ℕ) → List Input → Reader → (len : ℕ) → Outcome (ℤ × Reader)
skip rounds script reader len =
    if leb len (sub_size reader.buffer.len reader.offset)
    then done (pos len, record reader { offset = reader.offset + len })
    else skip_loop rounds script
        (record reader { offset = 0; buffer = record reader.buffer { len = 0 } }) len
        (len + reader.offset - reader.buffer.len)
