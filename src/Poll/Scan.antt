-- ===== src/Poll/Scan.antt =====
-- The events that ef_poll_wait reports.
use eframework.Base.{
  ℕ, zero, suc, ◌+◌, ◌≤◌, ◌≡◌, refl, sym, ◌∙◌, some, List, [], ◌∷◌, arith, ltb, ◌==◌, if◌then◌else◌,
  inl, inr, Bool-cases, length, take, take_all, All,
}
use eframework.Poll.{Pollsys, Event, ready, IsValid, answered, scan, wait}
use eframework.Poll.Lookup.{lookup}

-- The entries with an event, in the order of their positions.
unfoldable pub ready_events : Pollsys → (rounds idx : ℕ) → List Event
ready_events ep zero idx = []
ready_events ep (suc rounds) idx =
    let rest = ready_events ep rounds (idx + 1) in
    if (ep.pfds idx).revents == 0
    then rest
    else record { events = (ep.pfds idx).revents; ptr = (ep.index (ep.pfds idx).fd).ptr } ∷ rest

scan-take :
    (ep : Pollsys) (rounds idx room : ℕ)
    → scan ep rounds idx room ≡ take room (ready_events ep rounds idx)
unfolding scan ready_events
scan-take ep zero idx zero = refl
scan-take ep zero idx (suc room) = refl
scan-take ep (suc rounds) idx zero = refl
scan-take ep (suc rounds) idx (suc room) =
    ground (arith, scan-take ep rounds (idx + 1) (suc room), scan-take ep rounds (idx + 1) room)

take-take-length :
    (count : ℕ) (l : List Event)
    → take (if ltb (length l) count then length l else count) l ≡ take count l
take-take-length count l = elim (Bool-cases (ltb (length l) count)) [
  | inl more ↦ rw more (take_all (length l) l (omega arith) ∙ sym (take_all count l (ground arith)))
  | inr fits ↦ rw fits
]

-- If `poll` returns the number of entries for which it has set an event, `ef_poll_wait` reports
-- the ready entries in the order of their positions, all of them or the first `count`; nothing
-- changes in what is registered.
pub poll_wait_lem :
    (ep : Pollsys) (ret count g : ℕ) (revents : ℕ → ℕ)
    → ret ≡ length (ready_events (answered ep revents) ep.nfds 0)
    → let (events, ep') = wait ep (ready ret revents) count in
      (events ≡ take count (ready_events (answered ep revents) ep.nfds 0))
      × (lookup ep' g ≡ lookup ep g)
unfolding wait lookup
poll_wait_lem ep ret count g revents counted =
    let all = ready_events (answered ep revents) ep.nfds 0 in
    (rw (scan-take (answered ep revents) ep.nfds 0 _, counted) (take-take-length count all), refl)

-- What is reported of a valid object is registered: each event carries the pointer of a descriptor
-- in the table.
pub scan-Registered :
    (ep : Pollsys) (rounds idx room : ℕ)
    → IsValid ep
    → idx + rounds ≤ ep.nfds
    → All
        (λ e.
          (fd : ℕ) × (asked : ℕ) × (lookup ep fd ≡ some (record { events = asked; ptr = e.ptr })))
        (scan ep rounds idx room)
unfolding scan lookup
scan-Registered ep zero idx room v h = tt
scan-Registered ep (suc rounds) idx zero v h = tt
scan-Registered ep (suc rounds) idx (suc room) v h =
    elim (Bool-cases ((ep.pfds idx).revents == 0)) [
      | inl quiet ↦
          rw (quiet, scan) (scan-Registered ep rounds (idx + 1) (suc room) v (omega arith))
      | inr event ↦
          rw (event, scan)
            (
              ((ep.pfds idx).fd, (ep.pfds idx).events, ground (arith, v.there idx, v.bound idx)),
              scan-Registered ep rounds (idx + 1) room v (omega arith),
            )
    ]
