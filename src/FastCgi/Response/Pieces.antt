-- ===== src/FastCgi/Response/Pieces.antt =====
-- Taking the next bytes of a response out of its buffers.
use eframework.Base.{
  ℕ, ◌+◌, ◌-◌, ◌≤◌, min, true, false, List, [], ◌∷◌, ◌++◌, length, take, drop, length-append,
  length-drop, ◌==◌, ◌≡◌, refl, sym, ap, ◌∙◌, inl, inr, arith, Bool-cases, leb, leb→le,
  drop-append_add, drop-append_le, drop-drop, take-append_add, take-append_le, take_all, append-nil,
}
use eframework.FastCgi.Response.{Taken, next_buf}
use eframework.FastCgi.Response.Headers.{concat}

-- The bytes that are left in the buffers.
abbrev pub remaining : List (List ℕ) → (offset : ℕ) → List ℕ
remaining [] offset = []
remaining (buffer ∷ buffers) offset = drop offset buffer ++ remaining buffers 0

-- The wanted bytes are there, and what is left stands behind them.
pub record Takes (buffers : List (List ℕ)) (offset pksz : ℕ) (t : Taken) : Type 0 where
  pub goes_on : t.broken ≡ false
  pub bytes_are : concat t.pieces ≡ take pksz (remaining buffers offset)
  pub left_are : remaining t.buffers t.offset ≡ drop pksz (remaining buffers offset)

-- The buffer has enough.
take_within :
    (buffer : List ℕ) (buffers : List (List ℕ)) (offset pksz : ℕ)
    → 1 ≤ pksz
    → pksz ≤ length buffer - offset
    → Takes (buffer ∷ buffers) offset pksz (next_buf (buffer ∷ buffers) offset pksz)
unfolding next_buf
take_within buffer buffers offset pksz p h =
    let m : min (length buffer - offset) pksz ≡ pksz = omega arith in
    let none_left : (pksz - pksz == 0) ≡ true = ground arith in
    let d = length-drop offset buffer in
    let taken =
      append-nil (take pksz (drop offset buffer))
      ∙ sym (take-append_le pksz (drop offset buffer) (remaining buffers 0) (omega (arith, d))) in
    elim (Bool-cases (offset + pksz == length buffer)) [
      | inl used_up ↦
          let e : pksz ≡ length (drop offset buffer) + 0 = ground (arith, used_up, d) in
          rw (m, none_left, used_up)
            record {
              goes_on = refl;
              bytes_are = taken;
              left_are = rw e (sym (drop-append_add 0 (drop offset buffer) (remaining buffers 0)));
            }
      | inr more ↦
          let behind =
            drop-append_le pksz (drop offset buffer) (remaining buffers 0) (omega (arith, d)) in
          rw (m, none_left, more)
            record { goes_on = refl; bytes_are = taken; left_are = rw (behind, drop-drop) refl }
    ]

pub next_buf-Takes :
    (buffers : List (List ℕ)) (offset pksz : ℕ)
    → 1 ≤ pksz
    → pksz ≤ length (remaining buffers offset)
    → Takes buffers offset pksz (next_buf buffers offset pksz)
unfolding next_buf
next_buf-Takes [] offset pksz p h = absurd (omega arith)
next_buf-Takes (buffer ∷ buffers) offset pksz p h =
    elim (Bool-cases (leb pksz (length buffer - offset))) [
      | inl within ↦ take_within buffer buffers offset pksz p (leb→le _ _ within)
      | inr over ↦
          let m : min (length buffer - offset) pksz ≡ length buffer - offset =
            ground (arith, over) in
          let some_left : (pksz - (length buffer - offset) == 0) ≡ false = ground (arith, over) in
          let size = length-drop offset buffer in
          let whole = length-append (drop offset buffer) (remaining buffers 0) in
          let n : pksz ≡ length (drop offset buffer) + (pksz - (length buffer - offset)) =
            ground (arith, over, size) in
          let rest =
            next_buf-Takes buffers 0 (pksz - (length buffer - offset)) (ground (arith, over))
              (omega (arith, h, whole, size)) in
          let k = pksz - (length buffer - offset) in
          let d = drop offset buffer in
          let r = remaining buffers 0 in
          let all : take (length buffer - offset) d ≡ d = take_all _ d (omega (arith, size)) in
          rw (m, some_left)
            record {
              goes_on = rest.goes_on;
              bytes_are =
                  rw (all, rest.bytes_are)
                    (sym (ap (λ j. take j (d ++ r)) n ∙ take-append_add k d r));
              left_are = rest.left_are ∙ sym (ap (λ j. drop j (d ++ r)) n ∙ drop-append_add k d r);
            }
    ]
