-- ===== src/Epollet/Valid.antt =====
-- Validity of the edge-triggered back end, through each of its operations.
use mathlib.Core.Path.{subst}
use native.Mathlib.Numerals.{add-one}
use eframework.Base.{
  ℕ, suc, ◌-◌, ◌≤◌, ◌<◌, ◌≡◌, ◌≢◌, refl, sym, inl, inr, Bool, true, false, ◌&&◌, none, some,
  some_inj, arith, ltb, leb, if◌then◌else◌, Bool-cases,
}
use eframework.Table.{update, IsTable, HasHole}
use eframework.Table.Growth.{double_until, double_until-lt, grow-IsTable, field-update}
use eframework.Table.Vacant.{vacant-none}
use eframework.Table.Moves.{
  IsTable-ext, insert-IsTable, exchange-IsTable, release-HasHole, fill-HasHole, close-IsTable,
}
use eframework.Epollet.{
  Item, Epoll, IsValid, create, expand, exchange, admit, withdraw, add_item, overwrite,
  leave_filled, leave_used, close_item,
}

abbrev start : ℕ → (ℕ → Item) → Epoll
start size junk = record { cap = size; used = 0; fill = 0; index = λ _. none; items = junk }

pub create-IsValid :
    (ep_ok index_ok items_ok events_ok epfd_ok : Bool) (junk : ℕ → Item) (cap : ℕ) {ep : Epoll}
    → create ep_ok index_ok items_ok events_ok epfd_ok junk cap ≡ some ep
    → IsValid ep × (ep.used ≡ 0) × (128 ≤ ep.cap) × (cap ≤ ep.cap)
unfolding create
create-IsValid false index_ok items_ok events_ok epfd_ok junk cap e = cc
create-IsValid true false items_ok events_ok epfd_ok junk cap e = cc
create-IsValid true true false events_ok epfd_ok junk cap e = cc
create-IsValid true true true false epfd_ok junk cap e = cc
create-IsValid true true true true false junk cap e = cc
create-IsValid true true true true true junk cap {ep} e =
    let size : ℕ = if ltb cap 128 then 128 else cap in
    let empty : IsTable size 0 (λ _. none) (λ i. (junk i).fd) = record {
      bound = λ i p. absurd (omega arith);
      there = λ i p. absurd (omega arith);
      back = λ k i p q. cc;
      room = omega (arith, vacant-none size);
    } in
    let is : some (start size junk) ≡ some ep = e in
    subst (λ (x : Epoll). IsValid x × (x.used ≡ 0) × (128 ≤ x.cap) × (cap ≤ x.cap)) (some_inj is)
      (record { table = empty; fill_in = omega arith }, refl, ground arith, ground arith)

pub expand-IsValid :
    (index_ok items_ok events_ok : Bool) (ep : Epoll) (fd : ℕ)
    → IsValid ep
    → 1 ≤ ep.cap
    → IsValid (expand index_ok items_ok events_ok ep fd).1
unfolding expand
expand-IsValid index_ok items_ok events_ok ep fd v pos = elim (Bool-cases (ltb fd ep.cap)) [
  | inl there ↦ rw there v
  | inr beyond ↦
      let more = double_until-lt (suc fd) ep.cap fd pos (omega arith) in
      elim (Bool-cases index_ok) [
        | inr failed ↦ rw (beyond, failed) v
        | inl granted ↦ elim (Bool-cases (items_ok && events_ok)) [
          | inr failed ↦
              rw (beyond, granted, failed)
                (record { table = grow-IsTable ep.cap v.table (omega arith); fill_in = v.fill_in })
          | inl granted' ↦
              rw (beyond, granted, granted')
                (record {
                  table = grow-IsTable (double_until (suc fd) ep.cap fd) v.table more.1;
                  fill_in = v.fill_in;
                })
        ]
      ]
]

pub expand-lt :
    (index_ok items_ok events_ok : Bool) (ep : Epoll) (fd : ℕ)
    → 1 ≤ ep.cap
    → (expand index_ok items_ok events_ok ep fd).0 ≡ true
    → fd < (expand index_ok items_ok events_ok ep fd).1.cap
unfolding expand
expand-lt index_ok items_ok events_ok ep fd pos e =
    ground (arith, double_until-lt (suc fd) ep.cap fd)

-- The table of an object, also one whose filled area is being changed.
abbrev pub IsIndexed : Epoll → Type 0
IsIndexed ep = IsTable ep.cap ep.used ep.index (λ i. (ep.items i).fd)

pub exchange-IsIndexed :
    (ep : Epoll) (i j : ℕ) → IsIndexed ep → i < ep.used → j < ep.used → IsIndexed (exchange ep i j)
unfolding exchange
exchange-IsIndexed ep i j t p q =
    IsTable-ext (exchange-IsTable i j t p q) (λ k. refl) (λ x. ground arith)

pub admit-IsValid : (ep : Epoll) (idx : ℕ) → IsValid ep → idx < ep.used → IsValid (admit ep idx)
unfolding admit exchange
admit-IsValid ep idx v h = elim (Bool-cases (ltb ep.fill idx)) [
  | inl beyond ↦
      let t = exchange-IsIndexed ep idx ep.fill v.table h (ground arith) in
      let outside : leb ep.fill idx ≡ true = ground arith in
      rw (beyond, outside) (record { table = t; fill_in = ground arith })
  | inr near ↦ elim (Bool-cases (leb ep.fill idx)) [
    | inl at_edge ↦ rw (near, at_edge) (record { table = v.table; fill_in = ground arith })
    | inr inside ↦ rw (near, inside) v
  ]
]

pub withdraw-IsValid :
    (ep : Epoll) (idx : ℕ) → IsValid ep → idx < ep.used → IsValid (withdraw ep idx)
unfolding withdraw exchange
withdraw-IsValid ep idx v h = elim (Bool-cases (ltb idx ep.fill)) [
  | inr outside ↦ rw outside v
  | inl inside ↦ elim (Bool-cases (ltb idx (ep.fill - 1))) [
    | inr last ↦ rw (inside, last) (record { table = v.table; fill_in = ground (arith, v.fill_in) })
    | inl before ↦
        let t = exchange-IsIndexed ep idx (ep.fill - 1) v.table h (ground (arith, v.fill_in)) in
        rw (inside, before) (record { table = t; fill_in = ground (arith, v.fill_in) })
  ]
]

-- A change of an item that keeps its descriptor.
pub rewrite-IsValid :
    (ep : Epoll) (idx : ℕ) (it : Item)
    → IsValid ep
    → it.fd ≡ (ep.items idx).fd
    → IsValid (record ep { items = update ep.items idx it })
rewrite-IsValid ep idx it v e = record {
  table = IsTable-ext v.table (λ k. refl) (λ i. ground arith);
  fill_in = v.fill_in;
}

pub add_item-IsValid :
    (ep : Epoll) (fd events ptr : ℕ)
    → IsValid ep
    → fd < ep.cap
    → ep.index fd ≡ none
    → IsValid (add_item ep fd events ptr)
unfolding add_item
add_item-IsValid ep fd events ptr v h e = record {
  table =
      IsTable-ext
        (subst
          (λ n.
            IsTable ep.cap n (update ep.index fd (some ep.used))
              (update (λ i. (ep.items i).fd) ep.used fd))
          (sym (add-one ep.used)) (insert-IsTable fd v.table h e))
        (λ k. refl) (λ i. ground arith);
  fill_in = omega (arith, v.fill_in);
}

-- An object with a hole at `hole`, which lies behind the filled area.
pub record IsOpen (ep : Epoll) (hole : ℕ) : Type 0 where
  pub table : HasHole ep.cap ep.used hole ep.index (λ i. (ep.items i).fd)
  pub fill_in : ep.fill ≤ hole

abbrev pub fds : Epoll → ℕ → ℕ
fds ep i = (ep.items i).fd

overwrite-HasHole :
    (ep : Epoll) (hole source : ℕ)
    → HasHole ep.cap ep.used hole ep.index (fds ep)
    → source < ep.used
    → source ≢ hole
    → HasHole ep.cap ep.used source
        (overwrite ep hole source).index
        (fds (overwrite ep hole source))
unfolding overwrite
overwrite-HasHole ep hole source t p q =
    subst (λ g. HasHole ep.cap ep.used source (update ep.index (ep.items source).fd (some hole)) g)
      (sym (field-update (λ (it : Item). it.fd) ep.items hole (ep.items source)))
      (fill-HasHole hole source t p q)

pub leave_filled-IsOpen :
    (ep : Epoll) (idx : ℕ)
    → HasHole ep.cap ep.used idx ep.index (fds ep)
    → ep.fill ≤ ep.used
    → IsOpen (leave_filled ep idx).0 (leave_filled ep idx).1
unfolding leave_filled overwrite
leave_filled-IsOpen ep idx t h = elim (Bool-cases (ltb idx ep.fill)) [
  | inr outside ↦ rw outside (record { table = t; fill_in = ground arith })
  | inl inside ↦ elim (Bool-cases (ltb idx (ep.fill - 1))) [
    | inr last ↦ rw (inside, last) (record { table = t; fill_in = ground arith })
    | inl before ↦
        rw (inside, before)
          (record {
            table = overwrite-HasHole ep idx (ep.fill - 1) t (ground arith) (ground arith);
            fill_in = omega arith;
          })
  ]
]

leave_used-IsValid : (ep : Epoll) (hole : ℕ) → IsOpen ep hole → IsValid (leave_used ep hole)
unfolding leave_used overwrite
leave_used-IsValid ep hole o =
    let last : ℕ = ep.used - 1 in
    let inside : hole < ep.used = o.table.inside in
    elim (Bool-cases (ltb hole last)) [
      | inl before ↦ rw before (record {
        table =
            close-IsTable last (overwrite-HasHole ep hole last o.table (omega arith) (ground arith))
              (omega arith);
        fill_in = ground (arith, o.fill_in);
      })
      | inr at_end ↦
          let same : hole ≡ last = ground arith in
          rw at_end (record {
            table =
                close-IsTable last
                  (subst (λ p. HasHole ep.cap ep.used p ep.index (fds ep)) same o.table)
                  (omega arith);
            fill_in = omega (arith, o.fill_in);
          })
    ]

pub close_item-IsValid :
    (ep : Epoll) (fd idx : ℕ)
    → IsValid ep
    → fd < ep.cap
    → ep.index fd ≡ some idx
    → IsValid (close_item ep fd idx)
unfolding close_item
close_item-IsValid ep fd idx v h e =
    let less = record ep { index = update ep.index fd none } in
    leave_used-IsValid (leave_filled less idx).0 (leave_filled less idx).1
      (leave_filled-IsOpen less idx (release-HasHole fd idx v.table h e) v.fill_in)
