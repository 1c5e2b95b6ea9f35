-- ===== src/FastCgi/Response.antt =====
-- `fcgi_write_response` of src/fastcgi.c: the text of the headers is put into a buffer, and it and the body are
-- handed to a buffered writer as records, piece by piece. The headers are the buckets of the table, each with
-- its key and its values where it has them. The results of `ef_buffer_append`, `ef_bio_write` and
-- `ef_bio_writer_flush` are not looked at by the source.
pub mod Pieces
pub mod Records
pub mod Written
pub mod Headers
pub mod Sending
pub mod Delivered
use eframework.Base.{
  ℕ, zero, suc, ◌+◌, ◌-◌, ◌*◌, ◌/◌, ◌%◌, ◌≤◌, min, Bool, true, false, Option, none, some, List, [],
  ◌∷◌, ◌++◌, length, take, drop, ltb, leb, ◌==◌, if◌then◌else◌, bit_and, add_size,
}
use eframework.Base.Int.{ℤ, pos, negsuc}
use eframework.Structure.Memory.{Outcome, done, fault, unfinished, Allocator}
use eframework.Structure.Buffer
use eframework.Structure.Buffer.{Buffer, append}
use eframework.Structure.BufferIo.{Answer, bio_write, flush}

abbrev pub fcgi_end_request : ℕ
fcgi_end_request = 3

abbrev pub fcgi_stdout : ℕ
fcgi_stdout = 6

-- `fcgi_header_t`, as it is laid out.
abbrev pub header : (kind id content_length padding : ℕ) → List ℕ
header kind id content_length padding =
    1
    ∷ kind
    ∷ (id / 256 % 256)
    ∷ (id % 256)
    ∷ (content_length / 256 % 256)
    ∷ (content_length % 256)
    ∷ padding
    ∷ 0
    ∷ []

-- A bucket of the table of headers.
pub record Bucket : Type 0 where
  pub key : Option (List ℕ)
  pub values : Option (List (List ℕ))

-- `": "` and `"\r\n"`.
abbrev pub colon : List ℕ
colon = 58 ∷ 32 ∷ []

abbrev pub line_end : List ℕ
line_end = 13 ∷ 10 ∷ []

-- The pieces that are appended to the first buffer, in their order.
abbrev pub header_pieces : (key : List ℕ) → List (List ℕ) → List (List ℕ)
header_pieces key [] = []
header_pieces key (value ∷ values) = key ∷ colon ∷ value ∷ line_end ∷ header_pieces key values

abbrev pub bucket_pieces : Bucket → List (List ℕ)
bucket_pieces b = elim b.key [
  | none ↦ []
  | some key ↦ elim b.values [ none ↦ [] | some values ↦ header_pieces key values ]
]

abbrev pub all_pieces : List Bucket → List (List ℕ)
all_pieces [] = line_end ∷ []
all_pieces (b ∷ buckets) = bucket_pieces b ++ all_pieces buckets

-- The calls of `ef_buffer_append`, the `k`-th with the allocator `als k`. One that fails is skipped.
unfoldable pub append_all :
    (als : ℕ → Allocator) → (k : ℕ) → List (List ℕ) → Buffer → Outcome Buffer
append_all als k [] buf = done buf
append_all als k (piece ∷ pieces) buf = elim (append 2 (als k) buf piece) [
  | fault ↦ fault
  | unfinished ↦ unfinished
  | done out ↦ append_all als (k + 1) pieces out.1
]

-- What is put into the first buffer.
abbrev pub header_text : (als : ℕ → Allocator) → Option (List Bucket) → Buffer → Outcome Buffer
header_text als none buf = done buf
header_text als (some buckets) buf = append_all als 0 (all_pieces buckets) buf

-- From `next_buf:` on, until `pksz` bytes are written or there is no buffer: the pieces, the buffers and the
-- offset that are left, and whether the loop is left.
pub record Taken : Type 0 where
  pub pieces : List (List ℕ)
  pub buffers : List (List ℕ)
  pub offset : ℕ
  pub broken : Bool

-- `pksz` is left over only where a buffer is used up, so that the next one is taken.
unfoldable pub next_buf : (buffers : List (List ℕ)) → (offset pksz : ℕ) → Taken
next_buf [] offset pksz = record { pieces = []; buffers = []; offset = offset; broken = true }
next_buf (buffer ∷ buffers) offset pksz =
    let wtsz = min (length buffer - offset) pksz in
    let piece = take wtsz (drop offset buffer) in
    let more = next_buf buffers 0 (pksz - wtsz) in
    let used_up = offset + wtsz == length buffer in
    if pksz - wtsz == 0
    then record {
      pieces = piece ∷ [];
      buffers = if used_up then buffers else buffer ∷ buffers;
      offset = if used_up then 0 else offset + wtsz;
      broken = false;
    }
    else record more { pieces = piece ∷ more.pieces }

-- `(8 - pksz % 8) & 7`
abbrev pub padding_of : ℕ → ℕ
padding_of pksz = bit_and (8 - pksz % 8) 7

abbrev pub zeros : ℕ → List ℕ
zeros zero = []
zeros (suc n) = 0 ∷ zeros n

-- The padding is written only if there is some.
abbrev pub padding_pieces : ℕ → List (List ℕ)
padding_pieces zero = []
padding_pieces (suc n) = zeros (suc n) ∷ []

abbrev pub written : List (List ℕ) → Outcome (List (List ℕ)) → Outcome (List (List ℕ))
written pieces (done out) = done (pieces ++ out)
written pieces fault = fault
written pieces unfinished = unfinished

-- `while (length)`: the pieces that are handed to `ef_bio_write`.
unfoldable pub packets :
    (rounds id : ℕ) → (buffers : List (List ℕ)) → (offset left : ℕ) → Outcome (List (List ℕ))
packets rounds id buffers offset zero = done []
packets zero id buffers offset (suc left) = unfinished
packets (suc rounds) id buffers offset (suc left) =
    let pksz = min (suc left) 65535 in
    let start = header fcgi_stdout id pksz (padding_of pksz) in
    let t = next_buf buffers offset pksz in
    let rest = packets rounds id t.buffers t.offset (suc left - pksz) in
    if t.broken
    then done (start ∷ t.pieces)
    else written (start ∷ (t.pieces ++ padding_pieces (padding_of pksz))) rest

-- The last record; `fcgi_end_request_t` is all zero.
abbrev pub end_request : ℕ → List (List ℕ)
end_request id = header fcgi_end_request id 8 0 ∷ zeros 8 ∷ []

-- The calls of `ef_bio_write`: the writer's buffer, the bytes that the kernel took, and its answers that are
-- left. What a call that fails does not keep is lost.
pub record Output : Type 0 where
  pub buffer : Buffer
  pub bytes : List ℕ
  pub rest : List Answer

abbrev pub sent_before : List ℕ → Outcome Output → Outcome Output
sent_before bytes (done o) = done (record o { bytes = bytes ++ o.bytes })
sent_before bytes fault = fault
sent_before bytes unfinished = unfinished

unfoldable pub write_all : Allocator → List Answer → Buffer → List (List ℕ) → Outcome Output
write_all al script buffer [] = done (record { buffer = buffer; bytes = []; rest = script })
write_all al script buffer (piece ∷ pieces) = elim (bio_write 2 al script buffer piece) [
  | fault ↦ fault
  | unfinished ↦ unfinished
  | done w ↦ sent_before w.bytes (write_all al w.rest w.buffer pieces)
]

-- `ef_bio_writer_flush`, and what was sent in all.
unfoldable pub flush_all : Outcome Output → Outcome (List ℕ)
flush_all fault = fault
flush_all unfinished = unfinished
flush_all (done o) = elim (flush o.rest o.buffer) [
  | fault ↦ fault
  | unfinished ↦ unfinished
  | done w ↦ done (o.bytes ++ w.bytes)
]

-- The response's data, NULL or the contents of a buffer.
abbrev pub data_buffers : Option (List ℕ) → List (List ℕ)
data_buffers none = []
data_buffers (some bytes) = bytes ∷ []

abbrev pub data_length : Option (List ℕ) → ℕ
data_length none = 0
data_length (some bytes) = length bytes

-- BUFFER_SIZE.
abbrev pub buffer_size : ℕ
buffer_size = 8192

-- What answers for the memory: of the first buffer, of the appends to it, and of the writer, its buffer and the
-- appends to that.
pub record Memory : Type 0 where
  pub buffer : Allocator
  pub appends : ℕ → Allocator
  pub writer : Bool
  pub writer_buffer : Allocator
  pub writes : Allocator

-- From the loop on, with the writer's buffer, the text and the length of all.
unfoldable pub send_response :
    (rounds id total : ℕ)
    → Allocator
    → List Answer
    → (writer : Buffer) → (text : List ℕ) → Option (List ℕ)
    → Outcome (ℤ × List ℕ)
send_response rounds id total al script writer text body =
    elim (packets rounds id (text ∷ data_buffers body) 0 total) [
      | fault ↦ fault
      | unfinished ↦ unfinished
      | done pieces ↦ elim (flush_all (write_all al script writer (pieces ++ end_request id))) [
        | fault ↦ fault
        | unfinished ↦ unfinished
        | done out ↦ done (pos 0, out)
      ]
    ]

-- `fcgi_write_response`: its result, and the bytes that the kernel took, which gives the answers of `script`.
-- `garbage` is what `length` holds before it is set, which it is only if there are headers.
unfoldable pub write_response :
    (rounds garbage : ℕ)
    → Memory
    → List Answer
    → (id : ℕ) → Option (List Bucket)
    → Option (List ℕ)
    → Outcome (ℤ × List ℕ)
write_response rounds garbage m script id headers body =
    elim (Buffer.new m.buffer m.buffer buffer_size) [
      | none ↦ done (negsuc 0, [])
      | some empty ↦ elim (header_text m.appends headers empty) [
        | fault ↦ fault
        | unfinished ↦ unfinished
        | done text ↦
            let set : ℕ = elim headers [ none ↦ garbage | some buckets ↦ text.len ] in
            let total : ℕ = elim body [ none ↦ set | some bytes ↦ add_size set (length bytes) ] in
            if m.writer
            then elim (Buffer.new m.writer_buffer m.writer_buffer buffer_size) [
              | none ↦ done (negsuc 0, [])
              | some writer ↦
                  send_response rounds id total m.writes script writer (Buffer.contents text) body
            ]
            else done (negsuc 0, [])
      ]
    ]
