-- ===== src/FastCgi/Response/Written.antt =====
-- The records that a response is cut into.
use eframework.Base.{
  ℕ, ◌*◌, ap, ◌∙◌, append-nil, length-append, zero, suc, ◌-◌, ◌≤◌, min, false, List, [], ◌∷◌, ◌++◌,
  length, take, drop, length-take, length-drop, take-append-drop, All, ◌≡◌, refl, inl, inr, arith,
  leb, Bool-cases, take_all, drop_all,
}
use eframework.Structure.Memory.{done}
use eframework.FastCgi.Response.{
  fcgi_stdout, header, next_buf, padding_of, padding_pieces, zeros, written, packets,
}
use eframework.FastCgi.Response.Headers.{concat, concat-append}
use eframework.FastCgi.Response.Pieces.{remaining, Takes, next_buf-Takes}
use eframework.FastCgi.Response.Records.{written_rec, length-zeros, padding_of_lem}

-- Pieces of the largest size, but for the last one.
unfoldable pub pieces : (rounds : ℕ) → List ℕ → List (List ℕ)
pieces zero bytes = []
pieces (suc rounds) [] = []
pieces (suc rounds) (b ∷ bytes) = take 65535 (b ∷ bytes) ∷ pieces rounds (drop 65535 (b ∷ bytes))

abbrev pub stdout_rec : ℕ → List ℕ → List ℕ
stdout_rec id p = written_rec fcgi_stdout id p (padding_of (length p))

abbrev pub stream : ℕ → List (List ℕ) → List ℕ
stream id [] = []
stream id (p ∷ ps) = stdout_rec id p ++ stream id ps

-- A piece fits a record, and holds something.
abbrev pub IsPiece : List ℕ → Type 0
IsPiece p = (1 ≤ length p) × (length p ≤ 65535)

pub concat-pieces :
    (rounds : ℕ) (bytes : List ℕ) → length bytes ≤ rounds → concat (pieces rounds bytes) ≡ bytes
unfolding pieces
concat-pieces zero [] h = refl
concat-pieces zero (b ∷ bytes) h = absurd (omega arith)
concat-pieces (suc rounds) [] h = refl
concat-pieces (suc rounds) (b ∷ bytes) h =
    let rest =
      concat-pieces rounds (drop 65535 (b ∷ bytes))
        (omega (arith, length-drop 65535 (b ∷ bytes))) in
    rw rest (take-append-drop 65535 (b ∷ bytes))

pub pieces-IsPiece : (rounds : ℕ) (bytes : List ℕ) → All IsPiece (pieces rounds bytes)
unfolding pieces
pieces-IsPiece zero bytes = tt
pieces-IsPiece (suc rounds) [] = tt
pieces-IsPiece (suc rounds) (b ∷ bytes) =
    let n = length-take 65535 (b ∷ bytes) in
    ((omega (arith, n), omega (arith, n)), pieces-IsPiece rounds (drop 65535 (b ∷ bytes)))

-- The next piece as the source measures it.
next_piece :
    (rounds n : ℕ) (bytes : List ℕ)
    → 1 ≤ n
    → n ≡ length bytes
    → pieces (suc rounds) bytes
      ≡ take (min n 65535) bytes ∷ pieces rounds (drop (min n 65535) bytes)
unfolding pieces
next_piece rounds n [] p e = absurd (omega arith)
next_piece rounds n (b ∷ bytes) p e = elim (Bool-cases (leb n 65535)) [
  | inl last ↦
      let m : min n 65535 ≡ length (b ∷ bytes) = ground (arith, last, e) in
      let fits : length (b ∷ bytes) ≤ 65535 = ground (arith, last, e) in
      rw (m, take_all 65535 (b ∷ bytes) fits, drop_all 65535 (b ∷ bytes) fits)
        (rw
          (
            take_all (suc (length bytes)) (b ∷ bytes) (omega arith),
            drop_all (suc (length bytes)) (b ∷ bytes) (omega arith),
          )
          refl)
  | inr more ↦ let m : min n 65535 ≡ 65535 = ground (arith, more) in rw m refl
]

no_piece : (rounds : ℕ) (bytes : List ℕ) → 0 ≡ length bytes → pieces rounds bytes ≡ []
unfolding pieces
no_piece zero bytes e = refl
no_piece (suc rounds) [] e = refl
no_piece (suc rounds) (b ∷ bytes) e = absurd (omega (arith, e))

concat-padding_pieces : (n : ℕ) → concat (padding_pieces n) ≡ zeros n
concat-padding_pieces zero = refl
concat-padding_pieces (suc n) = append-nil (zeros (suc n))

packets_step :
    (rounds id : ℕ) (buffers : List (List ℕ)) (offset left : ℕ)
    → let n = min (suc left) 65535 in
      let t = next_buf buffers offset n in
      t.broken ≡ false
      → packets (suc rounds) id buffers offset (suc left)
        ≡ written
            (header fcgi_stdout id n (padding_of n) ∷ (t.pieces ++ padding_pieces (padding_of n)))
            (packets rounds id t.buffers t.offset (suc left - n))
unfolding packets
packets_step rounds id buffers offset left e = rw e refl

-- One record's pieces, and those behind them.
concat_step :
    (start content rest : List ℕ) (pieces more : List (List ℕ)) (padding : ℕ)
    → concat pieces ≡ content
    → concat more ≡ rest
    → concat ((start ∷ (pieces ++ padding_pieces padding)) ++ more)
      ≡ (start ++ (content ++ zeros padding)) ++ rest
concat_step start content rest pieces more padding c r =
    concat-append (start ∷ (pieces ++ padding_pieces padding)) more
    ∙ rw (concat-append pieces (padding_pieces padding), c, r, concat-padding_pieces padding) refl

-- The pieces that the loop hands to the writer are the records of the stream.
pub record Packed (rounds id : ℕ) (buffers : List (List ℕ)) (offset left : ℕ) : Type 0 where
  pub parts : List (List ℕ)
  pub runs : packets rounds id buffers offset left ≡ done parts
  pub whole : concat parts ≡ stream id (pieces rounds (remaining buffers offset))

one_record :
    (rounds id : ℕ) (buffers : List (List ℕ)) (offset left : ℕ)
    → let n = min (suc left) 65535 in
      let next = next_buf buffers offset n in
      suc left ≡ length (remaining buffers offset)
      → Takes buffers offset n next
      → Packed rounds id next.buffers next.offset (suc left - n)
      → Packed (suc rounds) id buffers offset (suc left)
one_record rounds id buffers offset left l t rest =
    let bytes = remaining buffers offset in
    let n = min (suc left) 65535 in
    let next = next_buf buffers offset n in
    let pad = padding_of n in
    let size : length (take n bytes) ≡ n = omega (arith, length-take n bytes, l) in
    record {
      parts = (header fcgi_stdout id n pad ∷ (next.pieces ++ padding_pieces pad)) ++ rest.parts;
      runs = packets_step rounds id buffers offset left t.goes_on ∙ rw (rest.runs) refl;
      whole =
          rw (next_piece rounds (suc left) bytes (omega arith) l, size)
            (concat_step (header fcgi_stdout id n pad) (take n bytes) _ next.pieces rest.parts pad
              t.bytes_are (rest.whole ∙ ap (λ b. stream id (pieces rounds b)) t.left_are));
    }

pub packets_lem :
    (rounds id : ℕ) (buffers : List (List ℕ)) (offset left : ℕ)
    → left ≡ length (remaining buffers offset)
    → left ≤ rounds
    → Packed rounds id buffers offset left
packets_lem rounds id buffers offset zero l r = record {
  parts = [];
  runs = unfold packets in refl;
  whole = rw (no_piece rounds (remaining buffers offset) l) refl;
}
packets_lem zero id buffers offset (suc left) l r = absurd (omega arith)
packets_lem (suc rounds) id buffers offset (suc left) l r =
    let bytes = remaining buffers offset in
    let n = min (suc left) 65535 in
    let next = next_buf buffers offset n in
    let t = next_buf-Takes buffers offset n (omega arith) (omega (arith, l)) in
    one_record rounds id buffers offset left l t (
      packets_lem rounds id next.buffers next.offset (suc left - n)
        (rw t.left_are (omega (arith, l, length-drop n bytes))) (omega arith))

-- Headers and padding are at most 15 bytes for each piece.
pub length-stream_bound :
    (id : ℕ) (ps : List (List ℕ)) → All IsPiece ps → length (stream id ps) ≤ 16 * length (concat ps)
length-stream_bound id [] fit = omega arith
length-stream_bound id (p ∷ ps) (f, fits) = omega (
  arith,
  f,
  length-append (stdout_rec id p) (stream id ps),
  length-append p (zeros (padding_of (length p))),
  length-append p (concat ps),
  length-zeros (padding_of (length p)),
  (padding_of_lem (length p)).1,
  length-stream_bound id ps fits,
)
