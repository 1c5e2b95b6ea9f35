-- ===== src/Structure/BufferIo/Send.antt =====
-- What ef_safe_write sends.
use eframework.Base.{
  ℕ, zero, suc, ◌+◌, ◌≤◌, ◌≡◌, refl, ap, ◌∙◌, true, false, List, [], ◌∷◌, ◌++◌, length, take, drop,
  length-drop, take-append-drop, All, arith,
}
use eframework.Base.Int.{ℤ, pos, negsuc, less}
use eframework.Structure.Memory.{done}
use eframework.Structure.BufferIo.{Answer, answer, Sent, after_piece, send}

abbrev pub TakesSome : Answer → Type 0
TakesSome (answer retval errno) = less (pos 0) retval ≡ true

-- All bytes are sent if the kernel takes at least one with each answer.
abbrev pub Takes : List Answer → Type 0
Takes script = All TakesSome script

pub record Complete (offset : ℕ) (script : List Answer) (left : List ℕ) (s : Sent) : Type 0 where
  pub bytes : s.bytes ≡ left
  pub retval : less s.retval (pos (offset + length left)) ≡ false
  pub takes : Takes s.rest
  pub enough : length script ≤ length s.rest + length left

pub less_mono : (r : ℤ) (m k : ℕ) → less r (pos k) ≡ false → m ≤ k → less r (pos m) ≡ false
less_mono (pos r) m k h p = ground arith
less_mono (negsuc r) m k h p = absurd (ground arith)

pub send-Complete :
    (script : List Answer) (offset : ℕ) (left : List ℕ)
    → Takes script
    → length left ≤ length script
    → (s : Sent) × (send script offset left ≡ done s) × Complete offset script left s
unfolding send
send-Complete script offset [] t h =
    (_, refl, record { bytes = refl; retval = ground arith; takes = t; enough = omega arith })
send-Complete [] offset (b ∷ left) t h = absurd (omega arith)
send-Complete (answer (pos zero) e ∷ script) offset (b ∷ left) t h = absurd (ground arith)
send-Complete (answer (negsuc n) e ∷ script) offset (b ∷ left) t h = absurd (ground arith)
send-Complete (answer (pos (suc n)) e ∷ script) offset (b ∷ left) t h =
    let short = length-drop n left in
    let (s, sends, c) = send-Complete script (offset + suc n) (drop n left) t.1 (omega arith) in
    (
      record s { bytes = take (suc n) (b ∷ left) ++ s.bytes },
      ap (after_piece (take (suc n) (b ∷ left))) sends,
      record {
        bytes =
            ap (λ l. take (suc n) (b ∷ left) ++ l) c.bytes ∙ take-append-drop (suc n) (b ∷ left);
        retval = less_mono s.retval _ _ c.retval (omega arith);
        takes = c.takes;
        enough = omega (arith, c.enough);
      },
    )
