-- ===== src/Poll/Lookup.antt =====
-- The poll back end as a map from descriptors to what was asked for them.
use eframework.Base.{
  ℕ, suc, ◌-◌, ◌^◌, ◌%◌, ◌≤◌, ◌<◌, ◌≡◌, inl, inr, Bool, true, false, Option, none, some, arith, ltb,
  leb, ◌==◌, if◌then◌else◌, Bool-cases, Option-cases,
}
use eframework.Table.Growth.{double_until-lt}
use eframework.Poll.{Pollsys, Event, IsValid, expand, register, associate, vacate, dissociate}
use eframework.Poll.Valid.{expand-IsValid, expand-lt, register-IsValid, vacate-IsValid}

-- The events and the pointer that a descriptor is registered with.
unfoldable pub lookup : Pollsys → ℕ → Option Event
lookup ep fd =
    if ltb fd ep.cap
    then elim (ep.index fd).idx [
      | none ↦ none
      | some i ↦ some (record { events = (ep.pfds i).events; ptr = (ep.index fd).ptr })
    ]
    else none

lookup-expand :
    (index_ok pfds_ok : Bool) (ep : Pollsys) (fd g : ℕ)
    → 1 ≤ ep.cap
    → lookup (expand index_ok pfds_ok ep fd).1 g ≡ lookup ep g
unfolding lookup expand
lookup-expand index_ok pfds_ok ep fd g pos = ground (arith, double_until-lt (suc fd) ep.cap fd)

lookup-register :
    (ep : Pollsys) (fd events ptr g : ℕ)
    → IsValid ep
    → fd < ep.cap
    → lookup (register ep fd events ptr) g
      ≡ (if g == fd then some (record { events = events % 2 ^ 16; ptr = ptr }) else lookup ep g)
unfolding lookup register
lookup-register ep fd events ptr g v h = elim (Option-cases (ep.index fd).idx) [
  | inl new_fd ↦
      rw (new_fd, register)
        (elim (Option-cases (ep.index g).idx) [
          | inl free ↦ ground arith
          | inr (i, taken) ↦ ground (arith, v.back g i)
        ])
  | inr (idx, old) ↦
      rw (old, register)
        (elim (Option-cases (ep.index g).idx) [
          | inl free ↦ ground arith
          | inr (i, taken) ↦ ground (arith, v.back g i, v.back fd idx)
        ])
]

lookup-vacate :
    (ep : Pollsys) (fd idx g : ℕ)
    → IsValid ep
    → fd < ep.cap
    → (ep.index fd).idx ≡ some idx
    → lookup (vacate ep fd idx) g ≡ (if g == fd then none else lookup ep g)
unfolding lookup vacate
lookup-vacate ep fd idx g v h e = elim (Option-cases (ep.index g).idx) [
  | inl free ↦ ground (arith, v.back fd idx, v.there (ep.nfds - 1))
  | inr (i, taken) ↦ ground (arith, v.back g i, v.back fd idx, v.there (ep.nfds - 1))
]

-- `ef_poll_associate` that is not called for a fired event, on a valid object with room for a
-- descriptor: if it returns 0 the descriptor has the given events (cut to a `short`) and pointer,
-- and otherwise nothing has changed; no other descriptor is touched either way. The object stays
-- valid.
pub poll_associate-lookup :
    (index_ok pfds_ok : Bool) (ep : Pollsys) (fd events ptr g : ℕ)
    → IsValid ep
    → 1 ≤ ep.cap
    → let (ok, ep') = associate index_ok pfds_ok ep fd events ptr false in
      IsValid ep'
      × (lookup ep' g ≡ (
          if ok
          then (if g == fd
              then some (record { events = events % 2 ^ 16; ptr = ptr })
              else lookup ep g)
          else lookup ep g))
unfolding associate
poll_associate-lookup index_ok pfds_ok ep fd events ptr g v pos =
    let grown = expand index_ok pfds_ok ep fd in
    let valid = expand-IsValid index_ok pfds_ok ep fd v pos in
    let same = lookup-expand index_ok pfds_ok ep fd g pos in
    elim (Bool-cases grown.0) [
      | inl done ↦
          let fits : fd < grown.1.cap = expand-lt index_ok pfds_ok ep fd pos done in
          rw done (
            register-IsValid grown.1 fd events ptr valid fits,
            rw (lookup-register grown.1 fd events ptr g valid fits, same),
          )
      | inr failed ↦ rw failed (valid, same)
    ]

lookup_outside :
    (ep : Pollsys) (fd g : ℕ)
    → leb ep.cap fd ≡ true
    → lookup ep g ≡ (if g == fd then none else lookup ep g)
unfolding lookup
lookup_outside ep fd g h = ground arith

lookup_free :
    (ep : Pollsys) (fd g : ℕ)
    → (ep.index fd).idx ≡ none
    → lookup ep g ≡ (if g == fd then none else lookup ep g)
unfolding lookup
lookup_free ep fd g h = ground arith

-- `ef_poll_dissociate` on a valid object takes out the descriptor, whether it was registered or
-- not, and leaves every other one as it was, also the one whose entry moves. The object stays
-- valid.
pub poll_dissociate-lookup :
    (ep : Pollsys) (fd g : ℕ)
    → IsValid ep
    → IsValid (dissociate ep fd)
      × (lookup (dissociate ep fd) g ≡ (if g == fd then none else lookup ep g))
unfolding dissociate
poll_dissociate-lookup ep fd g v = elim (Bool-cases (leb ep.cap fd)) [
  | inl outside ↦ rw outside (v, lookup_outside ep fd g outside)
  | inr inside ↦ elim (Option-cases (ep.index fd).idx) [
    | inl free ↦ rw (inside, free, dissociate) (v, lookup_free ep fd g free)
    | inr (idx, taken) ↦
        let h : fd < ep.cap = ground arith in
        rw (inside, taken, dissociate)
          (vacate-IsValid ep fd idx v h taken, lookup-vacate ep fd idx g v h taken)
  ]
]
