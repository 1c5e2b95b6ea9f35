-- ===== src/Poll/Valid.antt =====
-- Validity of the poll back end, through each of its operations.
use eframework.Base.{
  ℕ, suc, ◌-◌, ◌≤◌, ◌<◌, ◌≡◌, refl, sym, inl, inr, some_inj, Bool, true, false, Option, none, some,
  arith, ltb, if◌then◌else◌, Bool-cases, Option-cases,
}
use mathlib.Core.Path.{subst}
use native.Mathlib.Numerals.{add-one}
use eframework.Table.{update, IsTable, HasHole}
use eframework.Table.Growth.{double_until, double_until-lt, cleared, grow-IsTable}
use eframework.Table.Vacant.{vacant-none}
use eframework.Table.Moves.{
  IsTable-ext, insert-IsTable, release-HasHole, fill-HasHole, close-IsTable,
}
use eframework.Poll.{Pollfd, Pollsys, IsValid, unused, create, expand, register, vacate}

abbrev start : ℕ → (ℕ → Pollfd) → Pollsys
start cap junk = record { cap = cap; nfds = 0; index = λ _. unused; pfds = junk }

-- A new object has no entry, and room for at least 128 descriptors and for as many as were asked.
pub create-IsValid :
    (ep_ok index_ok pfds_ok : Bool) (junk : ℕ → Pollfd) (cap : ℕ) {ep : Pollsys}
    → create ep_ok index_ok pfds_ok junk cap ≡ some ep
    → IsValid ep × (ep.nfds ≡ 0) × (128 ≤ ep.cap) × (cap ≤ ep.cap)
unfolding create
create-IsValid false index_ok pfds_ok junk cap e = cc
create-IsValid true false pfds_ok junk cap e = cc
create-IsValid true true false junk cap e = cc
create-IsValid true true true junk cap {ep} e =
    let size : ℕ = if ltb cap 128 then 128 else cap in
    let empty : IsTable size 0 (λ _. none) (λ i. (junk i).fd) = record {
      bound = λ i p. absurd (omega arith);
      there = λ i p. absurd (omega arith);
      back = λ k i p q. cc;
      room = omega (arith, vacant-none size);
    } in
    let is : some (start size junk) ≡ some ep = e in
    subst (λ (x : Pollsys). IsValid x × (x.nfds ≡ 0) × (128 ≤ x.cap) × (cap ≤ x.cap)) (some_inj is)
      (empty, refl, ground arith, ground arith)

cleared-idx :
    (ep : Pollsys) (k : ℕ)
    → (cleared unused ep.cap ep.index k).idx ≡ cleared none ep.cap (λ j. (ep.index j).idx) k
cleared-idx ep k = ground arith

-- Growing keeps the entries, also where one of the allocations fails.
pub expand-IsValid :
    (index_ok pfds_ok : Bool) (ep : Pollsys) (fd : ℕ)
    → IsValid ep
    → 1 ≤ ep.cap
    → IsValid (expand index_ok pfds_ok ep fd).1
unfolding expand
expand-IsValid index_ok pfds_ok ep fd v pos = elim (Bool-cases (ltb fd ep.cap)) [
  | inl there ↦ rw there v
  | inr beyond ↦
      let more = double_until-lt (suc fd) ep.cap fd pos (omega arith) in
      let index_ext = λ (k : ℕ). cleared-idx ep k in
      elim (Bool-cases index_ok) [
        | inr failed ↦ rw (beyond, failed) v
        | inl granted ↦ elim (Bool-cases pfds_ok) [
          | inr failed ↦
              rw (beyond, granted, failed)
                (IsTable-ext (grow-IsTable ep.cap v (omega arith)) index_ext (λ i. refl))
          | inl granted' ↦
              rw (beyond, granted, granted')
                (IsTable-ext (grow-IsTable (double_until (suc fd) ep.cap fd) v more.1) index_ext
                  (λ i. refl))
        ]
      ]
]

pub expand-lt :
    (index_ok pfds_ok : Bool) (ep : Pollsys) (fd : ℕ)
    → 1 ≤ ep.cap
    → (expand index_ok pfds_ok ep fd).0 ≡ true
    → fd < (expand index_ok pfds_ok ep fd).1.cap
unfolding expand
expand-lt index_ok pfds_ok ep fd pos e = ground (arith, double_until-lt (suc fd) ep.cap fd)

pub register-IsValid :
    (ep : Pollsys) (fd events ptr : ℕ)
    → IsValid ep
    → fd < ep.cap
    → IsValid (register ep fd events ptr)
unfolding register
register-IsValid ep fd events ptr v h = elim (Option-cases (ep.index fd).idx) [
  | inl new_fd ↦
      rw (new_fd, register)
        (IsTable-ext
          (subst
            (λ n.
              IsTable ep.cap n (update (λ k. (ep.index k).idx) fd (some ep.nfds))
                (update (λ i. (ep.pfds i).fd) ep.nfds fd))
            (sym (add-one ep.nfds)) (insert-IsTable fd v h new_fd))
          (λ k. ground arith) (λ i. ground arith))
  | inr (idx, old) ↦
      rw (old, register)
        (IsTable-ext v (λ k. ground arith) (λ i. ground (arith, v.back fd idx h old)))
]

pub vacate-IsValid :
    (ep : Pollsys) (fd idx : ℕ)
    → IsValid ep
    → fd < ep.cap
    → (ep.index fd).idx ≡ some idx
    → IsValid (vacate ep fd idx)
unfolding vacate
vacate-IsValid ep fd idx v h e =
    let last : ℕ = ep.nfds - 1 in
    let hole = release-HasHole fd idx v h e in
    let out : ℕ → Option ℕ = update (λ k. (ep.index k).idx) fd none in
    let fds : ℕ → ℕ = λ i. (ep.pfds i).fd in
    let inside : idx < ep.nfds = hole.inside in
    elim (Bool-cases (ltb idx last)) [
      | inl before ↦ rw before (
          IsTable-ext
            (close-IsTable last (fill-HasHole idx last hole (omega arith) (ground arith))
              (omega arith))
            (λ k. ground arith) (λ i. ground arith))
      | inr at_end ↦
          let same : idx ≡ last = ground arith in
          rw at_end (
            IsTable-ext
              (close-IsTable last (subst (λ p. HasHole ep.cap ep.nfds p out fds) same hole)
                (omega arith))
              (λ k. ground arith) (λ i. refl))
    ]
