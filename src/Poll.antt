-- ===== src/Poll.antt =====
-- src/poll.c: the poll back end. `index` maps a descriptor to its position in `pfds`.
pub mod Valid
pub mod Lookup
pub mod Scan
mod Tests
use eframework.Base.{
  ℕ, zero, suc, ◌+◌, ◌-◌, ◌^◌, ◌%◌, ◌≡◌, Bool, true, false, Option, none, some, List, [], ◌∷◌, ltb,
  leb, ◌==◌, if◌then◌else◌, min,
}
use eframework.Table.{update, IsTable}
use eframework.Table.Growth.{double_until, cleared}

-- `ef_poll_index_t`; an `idx` of -1 is `none`.
pub record PollIndex : Type 0 where
  pub idx : Option ℕ
  pub ptr : ℕ

-- `struct pollfd`.
pub record Pollfd : Type 0 where
  pub fd : ℕ
  pub events : ℕ
  pub revents : ℕ

-- `ef_pollsys_t` without its table of functions.
pub record Pollsys : Type 0 where
  pub cap : ℕ
  pub nfds : ℕ
  pub index : ℕ → PollIndex
  pub pfds : ℕ → Pollfd

-- All bytes 0xff, as `memset` with -1 leaves them.
abbrev pub unused : PollIndex
unused = record { idx = none; ptr = 2 ^ 64 - 1 }

-- `ef_poll_create`; `junk` is what the new `pfds` hold, and each flag says whether an allocation
-- (the struct, the index, the entries) is granted.
unfoldable pub create : (ep_ok index_ok pfds_ok : Bool) (junk : ℕ → Pollfd) → ℕ → Option Pollsys
create ep_ok index_ok pfds_ok junk cap =
    if ep_ok
    then (if index_ok
        then (if pfds_ok
            then some (record {
              cap = if ltb cap 128 then 128 else cap;
              nfds = 0;
              index = λ _. unused;
              pfds = junk;
            })
            else none)
        else none)
    else none

-- `ef_poll_expand`: `true` for 0, `false` for -1. After a failed second `realloc` the index has been
-- cleared behind the old capacity.
unfoldable pub expand : (index_ok pfds_ok : Bool) → Pollsys → ℕ → Bool × Pollsys
expand index_ok pfds_ok ep fd =
    if ltb fd ep.cap
    then (true, ep)
    else if index_ok
    then (let grown = record ep { index = cleared unused ep.cap ep.index } in
        if pfds_ok
        then (true, record grown { cap = double_until (suc fd) ep.cap fd })
        else (false, grown))
    else (false, ep)

-- The part of `ef_poll_associate` behind the expansion.
unfoldable pub register : Pollsys → ℕ → ℕ → ℕ → Pollsys
register ep fd events ptr = elim (ep.index fd).idx [
  | none ↦ record ep {
    nfds = ep.nfds + 1;
    index = update ep.index fd (record { idx = some ep.nfds; ptr = ptr });
    pfds = update ep.pfds ep.nfds (record (ep.pfds ep.nfds) { fd = fd; events = events % 2 ^ 16 });
  }
  | some idx ↦ record ep {
    index = update ep.index fd (record { idx = some idx; ptr = ptr });
    pfds = update ep.pfds idx (record (ep.pfds idx) { fd = fd; events = events % 2 ^ 16 });
  }
]

-- `ef_poll_associate`.
unfoldable pub associate :
    (index_ok pfds_ok : Bool) → Pollsys → (fd events ptr : ℕ) → (fired : Bool) → Bool × Pollsys
associate index_ok pfds_ok ep fd events ptr fired =
    if fired
    then (true, ep)
    else (let grown = expand index_ok pfds_ok ep fd in
        if grown.0 then (true, register grown.1 fd events ptr) else (false, grown.1))

-- What `ef_poll_dissociate` does with the position of the descriptor.
unfoldable pub vacate : Pollsys → ℕ → ℕ → Pollsys
vacate ep fd idx =
    let last = ep.nfds - 1 in
    let out = update ep.index fd (record (ep.index fd) { idx = none }) in
    let moved = (ep.pfds last).fd in
    if ltb idx last
    then record ep {
      nfds = last;
      index = update out moved (record (out moved) { idx = some idx });
      pfds = update ep.pfds idx (ep.pfds last);
    }
    else record ep { nfds = last; index = out }

-- `ef_poll_dissociate`, which returns 0 and reads neither `fired` nor `onclose`.
unfoldable pub dissociate : Pollsys → ℕ → Pollsys
dissociate ep fd =
    if leb ep.cap fd then ep else elim (ep.index fd).idx [ none ↦ ep | some idx ↦ vacate ep fd idx ]

-- `ef_event_t`.
pub record Event : Type 0 where
  pub events : ℕ
  pub ptr : ℕ

-- The loop of `ef_poll_wait`: `rounds` positions from `idx` on, at most `room` more events.
unfoldable pub scan : Pollsys → (rounds idx room : ℕ) → List Event
scan ep zero idx room = []
scan ep (suc rounds) idx zero = []
scan ep (suc rounds) idx (suc room) = elim ((ep.pfds idx).revents == 0) [
  | true ↦ scan ep rounds (idx + 1) (suc room)
  | false ↦
      record { events = (ep.pfds idx).revents; ptr = (ep.index (ep.pfds idx).fd).ptr }
      ∷ scan ep rounds (idx + 1) room
]

-- What `poll` answers: an error or a timeout (no event in either case), or the number of entries
-- whose `revents` it has set.
pub data PollAnswer : Type 0 where
  nothing : PollAnswer
  ready : ℕ → (ℕ → ℕ) → PollAnswer

-- The entries after `poll` has written to them.
abbrev pub answered : Pollsys → (ℕ → ℕ) → Pollsys
answered ep revents = record ep { pfds = λ i. record (ep.pfds i) { revents = revents i } }

-- `ef_poll_wait`: the events put into `evts`.
unfoldable pub wait : Pollsys → PollAnswer → ℕ → List Event × Pollsys
wait ep nothing count = ([], ep)
wait ep (ready ret revents) count =
    let ep' = answered ep revents in
    (scan ep' ep'.nfds 0 (if ltb ret count then ret else count), ep')

-- The index and the entries are inverse to each other.
abbrev pub IsValid : Pollsys → Type 0
IsValid ep = IsTable ep.cap ep.nfds (λ k. (ep.index k).idx) (λ i. (ep.pfds i).fd)
