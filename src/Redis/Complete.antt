-- ===== src/Redis/Complete.antt =====
-- Replies that are complete in the buffer.
use eframework.Base.{
  ℕ, suc, ◌+◌, ◌≤◌, ◌<◌, Bool, true, false, none, some, List, [], ◌∷◌, ◌++◌, length, drop,
  drop-append_add, drop-drop, All, ltb, ◌==◌, ◌≡◌, ◌≢◌, refl, sym, ap, ◌∙◌, arith, sub_size, ◌^◌,
}
use eframework.Base.Int.{pos}
use eframework.Structure.Memory.{done}
use eframework.Redis.{
  Connection, long, string, Script, line, await_line, parse_len, long_at, reply_size, parse_long,
  copied, string_of, parse_string, bulk_at, parse_bulk_string,
}
use eframework.Redis.Lines.{IsPlain, IsDigit, value, find_line_lem, read_number_lem, strncpy_lem}

-- The script of a call that may read more, or may not.
await_complete :
    (script : Script) (con : Connection) (text rest : List ℕ)
    → All IsPlain text
    → drop con.seek con.buf ≡ text ++ (13 ∷ 10 ∷ rest)
    → await_line script con.seek con
      ≡ done (line (record { start = con.seek; size = length text; con = con; script = script }))
unfolding await_line
await_complete [] con text rest h e = rw (e, find_line_lem text rest h) refl
await_complete (none ∷ script) con text rest h e = rw (e, find_line_lem text rest h) refl
await_complete (some bytes ∷ script) con text rest h e = rw (e, find_line_lem text rest h) refl

digit-IsPlain : (c : ℕ) → IsDigit c → IsPlain c
digit-IsPlain c (lo, hi) = (λ e. omega (arith, e, lo), λ e. omega (arith, e, lo))

digits-IsPlain : (digits : List ℕ) → All IsDigit digits → All IsPlain digits
digits-IsPlain [] h = tt
digits-IsPlain (c ∷ digits) (h, hs) = (digit-IsPlain c h, digits-IsPlain digits hs)

pub parse_long_lem :
    (grants : ℕ → Bool) (script : Script) (con : Connection) (digits rest : List ℕ)
    → grants reply_size ≡ true
    → All IsDigit digits
    → drop con.seek con.buf ≡ 58 ∷ (digits ++ (13 ∷ 10 ∷ rest))
    → parse_long grants script con.seek con
      ≡ done (record {
        reply = some (long (pos (value 0 digits)));
        con = record con { seek = con.seek + (length digits + 1) + 2 };
        script = script;
      })
unfolding parse_long long_at
parse_long_lem grants script con digits rest g h e =
    let plain : All IsPlain (58 ∷ digits) =
      ((λ e. omega (arith, e), λ e. omega (arith, e)), digits-IsPlain digits h) in
    let whole = await_complete script con (58 ∷ digits) rest plain e in
    let behind : drop (con.seek + 1) con.buf ≡ digits ++ (13 ∷ 10 ∷ rest) =
      sym (drop-drop con.seek 1 con.buf) ∙ ap (drop 1) e in
    rw (g, whole) (rw (behind, read_number_lem 0 digits (10 ∷ rest) h) refl)

parse_len_lem :
    (digits rest : List ℕ)
    → All IsDigit digits
    → 1 ≤ length digits
    → parse_len (36 ∷ (digits ++ (13 ∷ rest))) ≡ done (pos (value 0 digits))
unfolding parse_len
parse_len_lem [] rest h n = absurd (omega arith)
parse_len_lem (d ∷ digits) rest (h, hs) n =
    let not_minus : (d == 45) ≡ false = ground arith in
    let number = read_number_lem 0 (d ∷ digits) rest (h, hs) in rw (not_minus, number) refl

parse_string_lem :
    (grants : ℕ → Bool) (script : Script) (start : ℕ) (con : Connection) (text rest : List ℕ)
    → grants reply_size ≡ true
    → grants (length text) ≡ true
    → All (λ c. c ≢ 0) text
    → drop start con.buf ≡ text ++ rest
    → con.seek + length text ≤ con.end
    → con.end < 2 ^ 64
    → parse_string grants script (pos (length text)) start con
      ≡ done (record {
        reply = some (string text);
        con = record con { seek = con.seek + length text + 2 };
        script = script;
      })
unfolding parse_string string_of copied
parse_string_lem grants script start con text rest g1 g3 plain e there small =
    let left : ltb (sub_size con.end con.seek) (length text) ≡ false = ground arith in
    rw (g1, g3, parse_string)
      (rw (left, string_of) (rw (e, strncpy_lem text rest plain, copied) refl))

behind_line :
    (con : Connection) (digits rest : List ℕ)
    → drop con.seek con.buf ≡ 36 ∷ (digits ++ (13 ∷ 10 ∷ rest))
    → drop (con.seek + suc (length digits) + 2) con.buf ≡ rest
behind_line con digits rest e =
    let k : con.seek + suc (length digits) + 2 ≡ con.seek + (suc (length digits) + 2) =
      omega arith in
    rw k (
      sym (drop-drop con.seek (suc (length digits) + 2) con.buf)
      ∙ ap (drop (suc (length digits) + 2)) e
      ∙ drop-append_add 2 (36 ∷ digits) (13 ∷ 10 ∷ rest))

-- `parse_bulk_string`, if its memory is granted and the buffer holds, from `seek` on and whatever
-- stands behind, '$', the decimal digits of a length, the end of the line and a text of that
-- length without zeros: it returns that text, without reading more, and `seek` is then behind the
-- text and the two characters that end it.
pub parse_bulk_string_lem :
    (grants : ℕ → Bool) (script : Script) (con : Connection) (digits text rest : List ℕ)
    → grants reply_size ≡ true
    → grants (length text) ≡ true
    → All IsDigit digits
    → 1 ≤ length digits
    → value 0 digits ≡ length text
    → All (λ c. c ≢ 0) text
    → drop con.seek con.buf ≡ 36 ∷ (digits ++ (13 ∷ 10 ∷ (text ++ (13 ∷ 10 ∷ rest))))
    → con.seek + (suc (length digits) + 2) + length text ≤ con.end
    → con.end < 2 ^ 64
    → parse_bulk_string grants script con.seek con
      ≡ done (record {
        reply = some (string text);
        con = record con { seek = con.seek + (suc (length digits) + 2) + length text + 2 };
        script = script;
      })
unfolding parse_bulk_string bulk_at
parse_bulk_string_lem grants script con digits text rest g1 g3 h some_digit len plain_text e there
      small =
    let plain : All IsPlain (36 ∷ digits) =
      ((λ e. omega (arith, e), λ e. omega (arith, e)), digits-IsPlain digits h) in
    let whole = await_complete script con (36 ∷ digits) (text ++ (13 ∷ 10 ∷ rest)) plain e in
    let count = parse_len_lem digits (10 ∷ (text ++ (13 ∷ 10 ∷ rest))) h some_digit in
    let behind = behind_line con digits (text ++ (13 ∷ 10 ∷ rest)) e in
    let at_text : Connection = record con { seek = con.seek + (suc (length digits) + 2) } in
    rw whole (
      rw (e, count, len)
        (parse_string_lem grants script _ at_text text (13 ∷ 10 ∷ rest) g1 g3 plain_text behind
          there small))
