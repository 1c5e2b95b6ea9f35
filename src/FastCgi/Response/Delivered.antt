-- ===== src/FastCgi/Response/Delivered.antt =====
-- What the other side reads of a response.
use eframework.Base.{
  ℕ, suc, ◌+◌, ◌*◌, ◌%◌, ◌^◌, ◌≤◌, ◌<◌, true, false, Option, none, some, List, [], ◌∷◌, ◌++◌,
  length, length-append, All, add_size, ◌≡◌, refl, sym, ap, subst, ◌∙◌, arith, append_assoc,
  append-nil, ◌==◌,
}
use eframework.Base.Int.{ℤ, pos}
use eframework.Structure.Util.{resize}
use eframework.Structure.Util.Resize.{resize-bounds}
use eframework.Structure.Memory.{Outcome, done, fault, unfinished, Allocator, malloc, cells}
use eframework.Structure.Buffer
use eframework.Structure.Buffer.{Buffer, IsValid, contents}
use eframework.Structure.Buffer.Valid.{Grants, new-IsValid}
use eframework.Structure.BufferIo.{Answer}
use eframework.Structure.BufferIo.Send.{Takes}
use eframework.FastCgi.Response.{
  fcgi_end_request, fcgi_stdout, Bucket, all_pieces, padding_of, zeros, end_request, data_buffers,
  data_length, buffer_size, Memory, send_response, write_response,
}
use eframework.FastCgi.Response.Headers.{
  concat, concat-append, append_all-granted, length-contents, text_of, concat-all_pieces,
}
use eframework.FastCgi.Response.Sending.{flush_all_lem}
use eframework.FastCgi.Response.Pieces.{remaining}
use eframework.FastCgi.Response.Records.{
  Rec, with_rec, read_records, written_rec, length-zeros, read_record_lem, padding_of_lem,
}
use eframework.FastCgi.Response.Written.{
  pieces, stdout_rec, stream, IsPiece, concat-pieces, pieces-IsPiece, packets_lem,
  length-stream_bound,
}

-- The records for pieces, and the last one.
abbrev pub stdouts : ℕ → List (List ℕ) → List Rec
stdouts id [] = record { kind = fcgi_end_request; id = id; content = zeros 8 } ∷ []
stdouts id (p ∷ ps) = record { kind = fcgi_stdout; id = id; content = p } ∷ stdouts id ps

read_step :
    (rounds kind id padding : ℕ) (content rest : List ℕ)
    → id < 65536
    → length content < 65536
    → read_records (suc rounds) (written_rec kind id content padding ++ rest)
      ≡ with_rec (record { kind = kind; id = id; content = content }) (read_records rounds rest)
unfolding read_records
read_step rounds kind id padding content rest i n =
    rw (read_record_lem kind id padding content rest i n) refl

read_end : (id : ℕ) → id < 65536 → read_records 1 (concat (end_request id)) ≡ some (stdouts id [])
read_end id i =
    let e : written_rec fcgi_end_request id (zeros 8) 0 ++ [] ≡ concat (end_request id) = refl in
    rw (← e) (
      read_step 0 fcgi_end_request id 0 (zeros 8) [] i (omega arith)
      ∙ (unfold read_records in refl))

read_stream :
    (ps : List (List ℕ)) (id : ℕ)
    → id < 65536
    → All IsPiece ps
    → read_records (suc (length ps)) (stream id ps ++ concat (end_request id))
      ≡ some (stdouts id ps)
read_stream [] id i fit = read_end id i
read_stream (p ∷ ps) id i (f, fits) = rw (append_assoc) (
    read_step (suc (length ps)) fcgi_stdout id (padding_of (length p)) p
      (stream id ps ++ concat (end_request id)) i (omega arith)
    ∙ ap (with_rec (record { kind = fcgi_stdout; id = id; content = p }))
        (read_stream ps id i fits))

length-stream : (id : ℕ) (ps : List (List ℕ)) → length (stream id ps) % 8 ≡ 0
length-stream id [] = refl
length-stream id (p ∷ ps) =
    let whole = length-append (stdout_rec id p) (stream id ps) in
    let one = length-append p (zeros (padding_of (length p))) in
    omega (
      arith,
      whole,
      one,
      length-zeros (padding_of (length p)),
      (padding_of_lem (length p)).0,
      length-stream id ps,
    )

-- The response can be read: its pieces are the bytes that were to be sent, and fit their records, and the
-- whole is a multiple of eight bytes.
pub record Delivered (id : ℕ) (bytes out : List ℕ) : Type 0 where
  pub parts : List (List ℕ)
  pub read : read_records (suc (length parts)) out ≡ some (stdouts id parts)
  pub whole : concat parts ≡ bytes
  pub fit : All IsPiece parts
  pub aligned : length out % 8 ≡ 0

abbrev pub Delivers : (id : ℕ) → (bytes : List ℕ) → Outcome (ℤ × List ℕ) → Type 0
Delivers id bytes (done (retval, out)) = (retval ≡ pos 0) × Delivered id bytes out
Delivers id bytes fault = ⊥
Delivers id bytes unfinished = ⊥

abbrev pub data_bytes : Option (List ℕ) → List ℕ
data_bytes none = []
data_bytes (some bytes) = bytes

length-data_bytes : (body : Option (List ℕ)) → length (data_bytes body) ≡ data_length body
length-data_bytes none = refl
length-data_bytes (some bytes) = refl

remaining_all :
    (text : List ℕ) (body : Option (List ℕ))
    → remaining (text ∷ data_buffers body) 0 ≡ text ++ data_bytes body
remaining_all text none = refl
remaining_all text (some bytes) = ap (λ t. text ++ t) (append-nil bytes)

-- What is handed to the writer can be read.
stream-Delivered :
    (rounds id : ℕ) (bytes : List ℕ)
    → id < 65536
    → length bytes ≤ rounds
    → Delivered id bytes (stream id (pieces rounds bytes) ++ concat (end_request id))
stream-Delivered rounds id bytes i n =
    let ps = pieces rounds bytes in
    let fit = pieces-IsPiece rounds bytes in
    record {
      parts = ps;
      read = read_stream ps id i fit;
      whole = concat-pieces rounds bytes n;
      fit = fit;
      aligned =
          omega
            (arith, length-append (stream id ps) (concat (end_request id)), length-stream id ps);
    }

-- Enough answers of the kernel for a response of `n` bytes, and not too many bytes.
abbrev pub IsEnough : List Answer → (n : ℕ) → Type 0
IsEnough script n = (16 * (n + 1) ≤ 2 ^ 63) × (16 * (n + 1) ≤ length script)

send_response-Delivers :
    (rounds id total : ℕ) (al : Allocator) (script : List Answer) (writer : Buffer) (text : List ℕ)
    (body : Option (List ℕ))
    → id < 65536
    → total ≡ length text + data_length body
    → total ≤ rounds
    → IsValid writer
    → contents writer ≡ []
    → Takes script
    → IsEnough script total
    → Delivers id
        (text ++ data_bytes body)
        (send_response rounds id total al script writer text body)
unfolding send_response
send_response-Delivers rounds id total al script writer text body i t r v none_held takes
      (small, enough) =
    let bytes = text ++ data_bytes body in
    let buffers = text ∷ data_buffers body in
    let same = remaining_all text body in
    let n : total ≡ length bytes =
      omega (arith, t, length-append text (data_bytes body), length-data_bytes body) in
    let p = packets_lem rounds id buffers 0 total (n ∙ sym (ap length same)) r in
    let out : concat (p.parts ++ end_request id)
        ≡ stream id (pieces rounds bytes) ++ concat (end_request id) =
      concat-append p.parts (end_request id)
      ∙ ap (λ l. l ++ concat (end_request id))
          (p.whole ∙ ap (λ b. stream id (pieces rounds b)) same) in
    let size : length (concat (p.parts ++ end_request id)) ≤ 16 * (total + 1) = omega (
      arith,
      ap length out,
      length-append (stream id (pieces rounds bytes)) (concat (end_request id)),
      length-stream_bound id (pieces rounds bytes) (pieces-IsPiece rounds bytes),
      ap length (concat-pieces rounds bytes (omega (arith, n))),
      n,
    ) in
    let sent =
      flush_all_lem al script writer (p.parts ++ end_request id) v none_held (omega (arith, size))
        takes (omega (arith, size)) in
    rw (p.runs, send_response)
      (rw sent (refl, rw out (stream-Delivered rounds id bytes i (omega (arith, n)))))

-- All memory is granted.
pub record AllGranted (m : Memory) : Type 0 where
  pub buffer : Grants m.buffer
  pub appends : (i : ℕ) → Grants (m.appends i)
  pub writer : m.writer ≡ true
  pub writer_buffer : Grants m.writer_buffer

new-granted : (al : Allocator) → Grants al → (b : Buffer) × (Buffer.new al al buffer_size ≡ some b)
unfolding Buffer.new malloc
new-granted al g =
    let size : ℕ = resize 8192 0 in
    let some_room : (size == 0) ≡ false =
      ground (arith, resize-bounds 8192 (omega arith) (omega arith)) in
    (
      record { ptr = some (cells al.junk 0 size); cap = size; len = 0 },
      rw (g 24, Buffer.new) (rw some_room (rw (g size) refl)),
    )

-- The length of all, where it fits.
total_lem :
    (n : ℕ) (body : Option (List ℕ))
    → n + data_length body < 2 ^ 64
    → (elim body [ none ↦ n | some bytes ↦ add_size n (length bytes) ]) ≡ n + data_length body
total_lem n none h = omega arith
total_lem n (some bytes) h = omega arith

-- `fcgi_write_response` with headers, if its memory is granted, for an id of 16 bits, if the
-- kernel takes at least one byte with each answer and has 16 (n + 1) answers for a response of n
-- bytes, and 16 (n + 1) is at most 2 ^ 63: it ends and returns 0, and the bytes that the kernel
-- has taken can be read as records of the protocol: those of the output, whose contents in their
-- order are the text of the headers (for each value of each bucket that has a key and values its
-- key, a colon and a blank, the value and the end of a line, and an empty line behind all)
-- followed by the data, each of 1 to 65535 bytes, and then the end of the request. The whole is a
-- multiple of eight bytes.
pub write_response_lem :
    (rounds garbage : ℕ) (m : Memory) (script : List Answer) (id : ℕ) (buckets : List Bucket)
    (body : Option (List ℕ))
    → AllGranted m
    → id < 65536
    → length (text_of buckets) + data_length body ≤ rounds
    → Takes script
    → IsEnough script (length (text_of buckets) + data_length body)
    → Delivers id
        (text_of buckets ++ data_bytes body)
        (write_response rounds garbage m script id (some buckets) body)
unfolding write_response
write_response_lem rounds garbage m script id buckets body g i r takes enough =
    let (empty, made) = new-granted m.buffer g.buffer in
    let (writer, given) = new-granted m.writer_buffer g.writer_buffer in
    let (empty_valid, none_yet, _) = new-IsValid m.buffer m.buffer buffer_size (omega arith) made in
    let (valid, none_held, _) =
      new-IsValid m.writer_buffer m.writer_buffer buffer_size (omega arith) given in
    let (small, _) = enough in
    let text_is = concat-all_pieces buckets in
    let empty_len : empty.len ≡ 0 = sym (length-contents empty empty_valid) ∙ ap length none_yet in
    let (text, appended, text_valid, holds) =
      append_all-granted m.appends 0 (all_pieces buckets) empty g.appends empty_valid
        (omega (arith, empty_len, ap length text_is, small)) in
    let contents_is : contents text ≡ text_of buckets =
      holds ∙ ap (λ l. l ++ concat (all_pieces buckets)) none_yet ∙ text_is in
    let len_is : text.len ≡ length (contents text) = sym (length-contents text text_valid) in
    let text_len : text.len ≡ length (text_of buckets) = len_is ∙ ap length contents_is in
    let total = total_lem text.len body (omega (arith, text_len, small)) in
    let size : text.len + data_length body ≡ length (text_of buckets) + data_length body =
      ap (λ n. n + data_length body) text_len in
    let whole : ℕ = elim body [ none ↦ text.len | some bytes ↦ add_size text.len (length bytes) ] in
    let sent =
      send_response-Delivers rounds id whole m.writes script writer (contents text) body i
        (total ∙ ap (λ n. n + data_length body) len_is) (omega (arith, total, size, r)) valid
        none_held takes (subst (IsEnough script) (sym (total ∙ size)) enough) in
    rw (made, write_response)
      (rw appended (
        rw g.writer (
          rw given (
            subst
              (λ t.
                Delivers id (t ++ data_bytes body)
                  (send_response rounds id whole m.writes script writer (contents text) body))
              contents_is sent))))
