-- ===== src/FastCgi/Response/Sending.antt =====
-- The pieces of a response on their way through the writer.
use eframework.Base.{
  ℕ, ◌+◌, ◌^◌, ◌≤◌, ◌≡◌, refl, sym, ap, ◌∙◌, List, [], ◌∷◌, ◌++◌, length, length-append,
  append_assoc, append-nil, arith,
}
use eframework.Structure.Memory.{done, Allocator}
use eframework.Structure.Buffer.{Buffer, IsValid, contents}
use eframework.Structure.BufferIo.{Answer}
use eframework.Structure.BufferIo.Send.{Takes}
use eframework.Structure.BufferIo.Writer.{bio_write_lem, flush_lem}
use eframework.FastCgi.Response.{Output, write_all, flush_all}
use eframework.FastCgi.Response.Headers.{concat, length-contents}

-- What was sent and what is held are the pieces behind what was held, and there are answers for the rest.
pub record Passed (al : Allocator) (script : List Answer) (buffer : Buffer) (pieces : List (List ℕ))
    : Type 0 where
  pub output : Output
  pub runs : write_all al script buffer pieces ≡ done output
  pub valid : IsValid output.buffer
  pub fifo : output.bytes ++ contents output.buffer ≡ contents buffer ++ concat pieces
  pub takes : Takes output.rest
  pub enough : length script ≤ length output.rest + length output.bytes

pub write_all-Passed :
    (al : Allocator) (script : List Answer) (buffer : Buffer) (pieces : List (List ℕ))
    → IsValid buffer
    → buffer.len + length (concat pieces) ≤ 2 ^ 63
    → Takes script
    → buffer.len + length (concat pieces) ≤ length script
    → Passed al script buffer pieces
unfolding write_all
write_all-Passed al script buffer [] v small t h = record {
  output = record { buffer = buffer; bytes = []; rest = script };
  runs = refl;
  valid = v;
  fifo = rw append-nil refl;
  takes = t;
  enough = omega arith;
}
write_all-Passed al script buffer (piece ∷ pieces) v small t h =
    let size = length-append piece (concat pieces) in
    let q =
      bio_write_lem 2 al script buffer piece v (omega arith) (omega (arith, size)) t
        (omega (arith, size)) in
    let w = q.wrote in
    let split : length w.bytes + w.buffer.len ≡ buffer.len + length piece = omega (
      arith,
      ap length q.fifo,
      length-append w.bytes (contents w.buffer),
      length-append (contents buffer) piece,
      length-contents w.buffer q.valid,
      length-contents buffer v,
    ) in
    let rest =
      write_all-Passed al w.rest w.buffer pieces q.valid (omega (arith, split, size)) q.takes
        (omega (arith, split, size, q.enough)) in
    let o = rest.output in
    let kept : (w.bytes ++ o.bytes) ++ contents o.buffer
        ≡ contents buffer ++ (piece ++ concat pieces) =
      append_assoc w.bytes o.bytes (contents o.buffer)
      ∙ ap (λ l. w.bytes ++ l) rest.fifo
      ∙ sym (append_assoc w.bytes (contents w.buffer) (concat pieces))
      ∙ ap (λ l. l ++ concat pieces) q.fifo
      ∙ append_assoc (contents buffer) piece (concat pieces) in
    record {
      output = record o { bytes = w.bytes ++ o.bytes };
      runs = rw (q.runs, write_all) (rw rest.runs refl);
      valid = rest.valid;
      fifo = kept;
      takes = rest.takes;
      enough = omega (arith, rest.enough, q.enough, length-append w.bytes o.bytes);
    }

-- If each answer of the kernel takes at least one byte and there are enough of them, exactly the pieces are
-- sent.
pub flush_all_lem :
    (al : Allocator) (script : List Answer) (buffer : Buffer) (pieces : List (List ℕ))
    → IsValid buffer
    → contents buffer ≡ []
    → length (concat pieces) ≤ 2 ^ 63
    → Takes script
    → length (concat pieces) ≤ length script
    → flush_all (write_all al script buffer pieces) ≡ done (concat pieces)
unfolding flush_all
flush_all_lem al script buffer pieces v e small t h =
    let empty : buffer.len ≡ 0 = sym (length-contents buffer v) ∙ ap length e in
    let p =
      write_all-Passed al script buffer pieces v (omega (arith, empty)) t (omega (arith, empty)) in
    let o = p.output in
    let whole : o.bytes ++ contents o.buffer ≡ concat pieces =
      p.fifo ∙ ap (λ l. l ++ concat pieces) e in
    let held : o.buffer.len ≤ length o.rest = omega (
      arith,
      p.enough,
      ap length whole,
      length-append o.bytes (contents o.buffer),
      length-contents o.buffer p.valid,
    ) in
    let (w, runs, (valid, (none_held, bytes))) = flush_lem o.rest o.buffer p.valid p.takes held in
    rw (p.runs, flush_all) (rw runs (ap done (ap (λ l. o.bytes ++ l) bytes ∙ whole)))
