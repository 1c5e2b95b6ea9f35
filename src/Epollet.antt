-- ===== src/Epollet.antt =====
-- src/epollet.c: the edge-triggered epoll back end. It remembers which events have fired for each
-- descriptor, and keeps the entries that can be served at the front: the first `fill` positions.
pub mod Flags
pub mod Valid
pub mod Lookup
pub mod Contract
pub mod Filled
pub mod Served
pub mod Wait
pub mod Release
pub mod Capacity
pub mod Reach
mod Tests
use eframework.Base.{
  ℕ, zero, suc, ◌+◌, ◌-◌, ◌^◌, ◌≤◌, ◌<◌, ◌≡◌, Bool, true, false, not, ◌&&◌, Option, none, some,
  List, [], ◌∷◌, ltb, leb, ◌==◌, if◌then◌else◌, bit_or,
}
use eframework.Table.{update, IsTable}
use eframework.Table.Growth.{double_until, cleared}
use Flags.{epoll_out, clear_bits, fired_bits}

-- `ef_epoll_item_t`.
pub record Item : Type 0 where
  pub fd : ℕ
  pub waiting : ℕ
  pub fired : ℕ
  pub ptr : ℕ

-- `ef_epoll_t` without its table of functions, the kernel's object and the buffer for its answers.
pub record Epoll : Type 0 where
  pub cap : ℕ
  pub used : ℕ
  pub fill : ℕ
  pub index : ℕ → Option ℕ
  pub items : ℕ → Item

-- `(pi->waiting | EPOLLERR | EPOLLHUP) & pi->fired`: the events to report.
unfoldable pub reportable : Item → ℕ
reportable it = fired_bits it.waiting it.fired

abbrev pub is_ready : Item → Bool
is_ready it = not (reportable it == 0)

-- `ef_epoll_create`; each flag says whether a step (the struct, the three arrays, the kernel's
-- object) succeeds, and `junk` is what the new items hold.
unfoldable pub create :
    (ep_ok index_ok items_ok events_ok epfd_ok : Bool) (junk : ℕ → Item) → ℕ → Option Epoll
create ep_ok index_ok items_ok events_ok epfd_ok junk cap =
    if ep_ok && (index_ok && (items_ok && (events_ok && epfd_ok)))
    then some (record {
      cap = if ltb cap 128 then 128 else cap;
      used = 0;
      fill = 0;
      index = λ _. none;
      items = junk;
    })
    else none

-- `ef_epoll_expand`: `true` for 0, `false` for -1.
unfoldable pub expand : (index_ok items_ok events_ok : Bool) → Epoll → ℕ → Bool × Epoll
expand index_ok items_ok events_ok ep fd =
    if ltb fd ep.cap
    then (true, ep)
    else if index_ok
    then (let grown = record ep { index = cleared none ep.cap ep.index } in
        if items_ok && events_ok
        then (true, record grown { cap = double_until (suc fd) ep.cap fd })
        else (false, grown))
    else (false, ep)

-- The exchange of two items, with the index kept in step, that four of the functions spell out.
unfoldable pub exchange : Epoll → ℕ → ℕ → Epoll
exchange ep i j = record ep {
  index = update (update ep.index (ep.items j).fd (some i)) (ep.items i).fd (some j);
  items = update (update ep.items j (ep.items i)) i (ep.items j);
}

-- Moving an item that can be served to the filled area.
unfoldable pub admit : Epoll → ℕ → Epoll
admit ep idx =
    let moved = if ltb ep.fill idx then exchange ep idx ep.fill else ep in
    if leb ep.fill idx then record moved { fill = ep.fill + 1 } else moved

-- Moving an item out of the filled area.
unfoldable pub withdraw : Epoll → ℕ → Epoll
withdraw ep idx =
    let last = ep.fill - 1 in
    if ltb idx ep.fill
    then (let less = record ep { fill = last } in
        if ltb idx last then exchange less idx last else less)
    else ep

-- What `ef_epoll_associate` returns: -1, 0 or 1.
pub data Association : Type 0 where
  failed waits can_serve : Association

-- A descriptor that is not in the table yet. Its item says that it can be written to.
unfoldable pub add_item : Epoll → (fd events ptr : ℕ) → Epoll
add_item ep fd events ptr = record ep {
  used = ep.used + 1;
  index = update ep.index fd (some ep.used);
  items =
      update ep.items ep.used (record { fd = fd; waiting = events; fired = epoll_out; ptr = ptr });
}

-- One that is in the table, at `idx`.
unfoldable pub change_item : Epoll → (idx events ptr : ℕ) → Epoll
change_item ep idx events ptr = record ep {
  items = update ep.items idx (record (ep.items idx) { waiting = events; ptr = ptr });
}

unfoldable pub settle : Epoll → ℕ → Association × Epoll
settle ep idx = if is_ready (ep.items idx) then (can_serve, admit ep idx) else (waits, ep)

-- `ef_epoll_associate` behind the expansion; `ctl_ok` says whether `epoll_ctl` adds the descriptor.
unfoldable pub register : (ctl_ok : Bool) → Epoll → (fd events ptr : ℕ) → Association × Epoll
register ctl_ok ep fd events ptr = elim (ep.index fd) [
  | none ↦
      let added = add_item ep fd events ptr in
      if ctl_ok then settle added ep.used else (failed, added)
  | some idx ↦ settle (change_item ep idx events ptr) idx
]

-- `ef_epoll_associate`.
unfoldable pub associate :
    (index_ok items_ok events_ok ctl_ok : Bool) → Epoll → (fd events ptr : ℕ) → Association × Epoll
associate index_ok items_ok events_ok ctl_ok ep fd events ptr =
    let grown = expand index_ok items_ok events_ok ep fd in
    if grown.0 then register ctl_ok grown.1 fd events ptr else (failed, grown.1)

-- An item is copied over another one, which is given up.
unfoldable pub overwrite : Epoll → (idx source : ℕ) → Epoll
overwrite ep idx source = record ep {
  items = update ep.items idx (ep.items source);
  index = update ep.index (ep.items source).fd (some idx);
}

-- `ef_epoll_dissociate` on closing, for the item at `idx`: out of the filled area, then out of the
-- used area. The position that is free in between is handed on.
unfoldable pub leave_filled : Epoll → ℕ → Epoll × ℕ
leave_filled ep idx =
    let last = ep.fill - 1 in
    if ltb idx ep.fill
    then (let less = record ep { fill = last } in
        if ltb idx last then (overwrite less idx last, last) else (less, idx))
    else (ep, idx)

unfoldable pub leave_used : Epoll → ℕ → Epoll
leave_used ep idx =
    let last = ep.used - 1 in
    let less = record ep { used = last } in if ltb idx last then overwrite less idx last else less

unfoldable pub close_item : Epoll → (fd idx : ℕ) → Epoll
close_item ep fd idx =
    let out = leave_filled (record ep { index = update ep.index fd none }) idx in
    leave_used out.0 out.1

-- `ef_epoll_dissociate` without a close: the item stays, and waits for nothing.
unfoldable pub quiet_item : Epoll → ℕ → Epoll
quiet_item ep idx =
    withdraw (record ep { items = update ep.items idx (record (ep.items idx) { waiting = 0 }) }) idx

-- `ef_epoll_dissociate`; its result on a close is that of `epoll_ctl`.
unfoldable pub dissociate : Epoll → (fd : ℕ) → (onclose : Bool) → Epoll
dissociate ep fd onclose = if leb ep.cap fd then ep else elim (ep.index fd) [
  | none ↦ ep
  | some idx ↦ if onclose then close_item ep fd idx else quiet_item ep idx
]

-- `ef_epoll_unset`: some fired events were used up.
unfoldable pub unset_item : Epoll → (idx events : ℕ) → Epoll
unset_item ep idx events =
    let cleared_ep = record ep {
      items =
          update ep.items idx
            (record (ep.items idx) { fired = clear_bits (ep.items idx).fired events });
    } in
    if is_ready (cleared_ep.items idx) then cleared_ep else withdraw cleared_ep idx

unfoldable pub unset : Epoll → (fd events : ℕ) → Epoll
unset ep fd events =
    if leb ep.cap fd
    then ep
    else elim (ep.index fd) [ none ↦ ep | some idx ↦ unset_item ep idx events ]

-- One answer of `epoll_wait`: a descriptor and its events.
unfoldable pub merge_item : Epoll → (idx events : ℕ) → Epoll
merge_item ep idx events =
    let fired = record ep {
      items =
          update ep.items idx
            (record (ep.items idx) { fired = bit_or (ep.items idx).fired events });
    } in
    if leb ep.fill idx && is_ready (fired.items idx) then admit fired idx else fired

-- The answers in their order. A descriptor that is not in the table would be looked up at position
-- -1 of the items, which is `none`.
unfoldable pub merge : Epoll → List (ℕ × ℕ) → Option Epoll
merge ep [] = some ep
merge ep ((fd, events) ∷ answers) = elim (ep.index fd) [
  | none ↦ none
  | some idx ↦ merge (merge_item ep idx events) answers
]

-- `ef_event_t`.
pub record Event : Type 0 where
  pub events : ℕ
  pub ptr : ℕ

-- The events of `n` items from position `i` on.
unfoldable pub collect : Epoll → (i n : ℕ) → List Event
collect ep i zero = []
collect ep i (suc n) =
    record { events = reportable (ep.items i); ptr = (ep.items i).ptr } ∷ collect ep (i + 1) n

-- `ef_epoll_wait`; `answers` is what `epoll_wait` gives if it is asked, `none` for its error.
unfoldable pub wait :
    Epoll → Option (List (ℕ × ℕ)) → (count : ℕ) → Option (Option (List Event) × Epoll)
wait ep answers count = elim (ep.fill == 0) [
  | false ↦ some (some (collect ep 0 (if ltb ep.fill count then ep.fill else count)), ep)
  | true ↦ elim answers [
    | none ↦ some (none, ep)
    | some l ↦ elim (merge ep l) [
      | none ↦ none
      | some ep' ↦ some (some (collect ep' 0 (if ltb ep'.fill count then ep'.fill else count)), ep')
    ]
  ]
]

-- Index and items are inverse to each other, and the filled area is part of the used one.
pub record IsValid (ep : Epoll) : Type 0 where
  pub table : IsTable ep.cap ep.used ep.index (λ i. (ep.items i).fd)
  pub fill_in : ep.fill ≤ ep.used

-- Everything in the filled area can be served.
abbrev pub FillIsReady : Epoll → Type 0
FillIsReady ep = (i : ℕ) → i < ep.fill → is_ready (ep.items i) ≡ true
