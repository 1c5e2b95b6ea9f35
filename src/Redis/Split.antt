-- ===== src/Redis/Split.antt =====
-- A text whose end arrives with a later read.
use eframework.Base.{
  ℕ, ◌+◌, ◌-◌, ◌≤◌, ◌<◌, ◌^◌, Bool, true, false, some, List, [], ◌∷◌, ◌++◌, length, length-append,
  drop, All, ltb, leb, ◌≡◌, ◌≢◌, refl, sym, ap, ◌∙◌, arith, append-nil, append_assoc, sub_size,
  add_size,
}
use eframework.Base.Int.{pos}
use eframework.Structure.Memory.{done, write_at}
use eframework.Redis.{
  Connection, string, Script, strncpy, move_rest, receive, reply_read_more, reply_size, copied,
  read_rest, string_of, parse_string,
}
use eframework.Redis.Lines.{strncpy_lem}

move_nothing :
    (con : Connection)
    → con.seek ≡ con.end
    → move_rest con ≡ done (record { buf = con.buf; seek = 0; end = 0 })
unfolding move_rest write_at strncpy
move_nothing con e =
    let nothing : sub_size con.end con.seek ≡ 0 = omega (arith, e) in
    let room : leb (0 + 0) (length con.buf) ≡ true = ground arith in
    rw (nothing, move_rest) (rw (room, write_at) (rw nothing refl))

-- Reading more when all is read: the new bytes stand at the front.
read_afresh :
    (bytes : List ℕ) (con : Connection)
    → con.seek ≡ con.end
    → length bytes ≤ length con.buf
    → reply_read_more bytes con
      ≡ done (record { buf = bytes ++ drop (length bytes) con.buf; seek = 0; end = length bytes })
unfolding reply_read_more receive write_at
read_afresh bytes con e fits =
    let room : leb (0 + length bytes) (length con.buf) ≡ true = ground arith in
    let e0 : 0 + length bytes ≡ length bytes = omega arith in
    rw (move_nothing con e) (rw (room, receive) (rw e0 refl))

copied_lem :
    (have : List ℕ) (n start : ℕ) (con : Connection) (cells : List ℕ)
    → strncpy n (drop start con.buf) ≡ some cells
    → copied have n start con ≡ done (have ++ cells)
unfolding copied
copied_lem have n start con cells e = rw (e, copied) refl

read_rest_step :
    (bytes : List ℕ) (script : Script) (strlen : ℕ) (have content : List ℕ) (con more : Connection)
    → ltb (length have) strlen ≡ true
    → reply_read_more bytes con ≡ done more
    → ltb (add_size (sub_size more.end more.seek) (length have)) strlen ≡ false
    → copied have (strlen - length have) 0 more ≡ done content
    → read_rest (some bytes ∷ script) strlen have con
      ≡ done (record {
        reply = some (string content);
        con = record more { seek = more.seek + (strlen - length have) };
        script = script;
      })
unfolding read_rest
read_rest_step bytes script strlen have content con more short read enough copy =
    rw (short, read_rest) (rw (read) (rw (enough) (rw copy refl)))

string_of_step :
    (script : Script) (strlen start : ℕ) (con : Connection) (content : List ℕ)
    → ltb (sub_size con.end con.seek) strlen ≡ true
    → copied [] (sub_size con.end con.seek) start con ≡ done content
    → string_of script strlen start con
      ≡ read_rest script strlen content (record con { seek = con.seek + sub_size con.end con.seek })
unfolding string_of
string_of_step script strlen start con content short copy = rw (short, string_of) (rw copy refl)

-- `parse_string` of a text that fills the buffer to its end and whose rest arrives with the next
-- read, together with the two characters that end it: the text is put together, but `seek` is left
-- in front of these two characters and not behind them.
pub parse_string_split :
    (grants : ℕ → Bool) (script : Script) (start : ℕ) (con : Connection) (first second : List ℕ)
    → grants reply_size ≡ true
    → grants (length (first ++ second)) ≡ true
    → All (λ c. c ≢ 0) first
    → All (λ c. c ≢ 0) second
    → 1 ≤ length second
    → drop start con.buf ≡ first
    → con.end ≡ con.seek + length first
    → con.end < 2 ^ 64
    → length second + 2 ≤ length con.buf
    → length first + length second + 2 < 2 ^ 64
    → parse_string grants
        (some (second ++ (13 ∷ 10 ∷ [])) ∷ script)
        (pos (length (first ++ second)))
        start
        con
      ≡ done (record {
        reply = some (string (first ++ second));
        con = record {
          buf = (second ++ (13 ∷ 10 ∷ [])) ++ drop (length (second ++ (13 ∷ 10 ∷ []))) con.buf;
          seek = length second;
          end = length (second ++ (13 ∷ 10 ∷ []));
        };
        script = script;
      })
unfolding parse_string
parse_string_split grants script start con first second g1 g3 p1 p2 n e end_is small fits total =
    let bytes = second ++ (13 ∷ 10 ∷ []) in
    let size = length-append first second in
    let sent = length-append second (13 ∷ 10 ∷ []) in
    let some_left : sub_size con.end con.seek ≡ length first = omega (arith, end_is) in
    let short : ltb (length first) (length (first ++ second)) ≡ true = ground (arith, size) in
    let begun : strncpy (length first) first ≡ some first =
      ap (strncpy (length first)) (sym (append-nil first)) ∙ strncpy_lem first [] p1 in
    let at_end : Connection = record con { seek = con.seek + sub_size con.end con.seek } in
    let more = read_afresh bytes at_end (omega (arith, end_is)) (omega (arith, sent)) in
    let last : 0 + (length (first ++ second) - length first) ≡ length second =
      omega (arith, size) in
    let read : Connection = record {
      buf = bytes ++ drop (length bytes) con.buf;
      seek = 0;
      end = length bytes;
    } in
    let one = copied_lem [] _ start con first (rw (some_left, e) begun) in
    let rest_is : length (first ++ second) - length first ≡ length second = omega (arith, size) in
    let two : copied first (length (first ++ second) - length first) 0 read
        ≡ done (first ++ second) =
      copied_lem first _ 0 read second (rw (rest_is, append_assoc) (strncpy_lem second _ p2)) in
    let enough : ltb (add_size (sub_size read.end read.seek) (length first))
          (length (first ++ second))
        ≡ false =
      ground (arith, size, sent) in
    rw (g1, g3, parse_string)
      (string_of_step (some bytes ∷ script) _ start con first (rw some_left short) one
        ∙ read_rest_step bytes script _ first (first ++ second) at_end read short more enough two
        ∙ rw last refl)
