-- ===== src/Epollet/Lookup.antt =====
-- The edge-triggered back end as a map from descriptors to their items.
use eframework.Base.{
  ℕ, suc, ◌-◌, ◌≤◌, ◌<◌, ◌≡◌, ◌≢◌, refl, ◌∙◌, inl, inr, Bool, true, Option, none, some, arith, ltb,
  leb, ◌==◌, if◌then◌else◌, Bool-cases, Option-cases,
}
use eframework.Table.{update, HasHole}
use eframework.Table.Growth.{double_until-lt}
use eframework.Table.Moves.{release-HasHole}
use eframework.Epollet.{
  Item, Epoll, IsValid, expand, exchange, admit, withdraw, add_item, overwrite, leave_filled,
  leave_used, close_item,
}
use eframework.Epollet.Flags.{epoll_out}
use eframework.Epollet.Valid.{IsIndexed, IsOpen, fds, leave_filled-IsOpen}

-- The item of a descriptor.
unfoldable pub lookup : Epoll → ℕ → Option Item
lookup ep fd =
    if ltb fd ep.cap then elim (ep.index fd) [ none ↦ none | some i ↦ some (ep.items i) ] else none

pub lookup-expand :
    (index_ok items_ok events_ok : Bool) (ep : Epoll) (fd g : ℕ)
    → 1 ≤ ep.cap
    → lookup (expand index_ok items_ok events_ok ep fd).1 g ≡ lookup ep g
unfolding lookup expand
lookup-expand index_ok items_ok events_ok ep fd g pos =
    ground (arith, double_until-lt (suc fd) ep.cap fd)

-- The two counts do not matter.
pub lookup-counts :
    (ep : Epoll) (used fill g : ℕ) → lookup (record ep { used = used; fill = fill }) g ≡ lookup ep g
unfolding lookup
lookup-counts ep used fill g = refl

pub lookup-exchange :
    (ep : Epoll) (i j g : ℕ)
    → IsIndexed ep
    → i < ep.used
    → j < ep.used
    → lookup (exchange ep i j) g ≡ lookup ep g
unfolding lookup exchange
lookup-exchange ep i j g t p q = elim (Option-cases (ep.index g)) [
  | inl free ↦ ground (arith, t.there i, t.there j)
  | inr (x, taken) ↦ ground (arith, t.there i, t.there j, t.back g x)
]

pub lookup-admit :
    (ep : Epoll) (idx g : ℕ) → IsValid ep → idx < ep.used → lookup (admit ep idx) g ≡ lookup ep g
unfolding admit
lookup-admit ep idx g v h = elim (Bool-cases (ltb ep.fill idx)) [
  | inl beyond ↦
      let outside : leb ep.fill idx ≡ true = ground arith in
      let same = lookup-exchange ep idx ep.fill g v.table h (ground arith) in
      rw (beyond, outside) (lookup-counts (exchange ep idx ep.fill) _ _ g ∙ same)
  | inr near ↦ elim (Bool-cases (leb ep.fill idx)) [
    | inl at_edge ↦ rw (near, at_edge) (lookup-counts ep _ _ g)
    | inr inside ↦ rw (near, inside)
  ]
]

pub lookup-withdraw :
    (ep : Epoll) (idx g : ℕ) → IsValid ep → idx < ep.used → lookup (withdraw ep idx) g ≡ lookup ep g
unfolding withdraw
lookup-withdraw ep idx g v h = elim (Bool-cases (ltb idx ep.fill)) [
  | inr outside ↦ rw outside
  | inl inside ↦ elim (Bool-cases (ltb idx (ep.fill - 1))) [
    | inr last ↦ rw (inside, last) (lookup-counts ep _ _ g)
    | inl before ↦
        let less = record ep { fill = ep.fill - 1 } in
        let last_in : ep.fill - 1 < ep.used = ground (arith, v.fill_in) in
        let same = lookup-exchange less idx (ep.fill - 1) g v.table h last_in in
        rw (inside, before) (same ∙ lookup-counts ep _ _ g)
  ]
]

pub lookup-rewrite :
    (ep : Epoll) (fd idx g : ℕ) (it : Item)
    → IsValid ep
    → fd < ep.cap
    → ep.index fd ≡ some idx
    → lookup (record ep { items = update ep.items idx it }) g
      ≡ (if g == fd then some it else lookup ep g)
unfolding lookup
lookup-rewrite ep fd idx g it v h e = elim (Option-cases (ep.index g)) [
  | inl free ↦ ground arith
  | inr (x, taken) ↦ ground (arith, v.table.back g x, v.table.back fd idx)
]

pub lookup-add_item :
    (ep : Epoll) (fd events ptr g : ℕ)
    → IsValid ep
    → fd < ep.cap
    → ep.index fd ≡ none
    → lookup (add_item ep fd events ptr) g ≡ (
        if g == fd
        then some (record { fd = fd; waiting = events; fired = epoll_out; ptr = ptr })
        else lookup ep g)
unfolding lookup add_item
lookup-add_item ep fd events ptr g v h e = elim (Option-cases (ep.index g)) [
  | inl free ↦ ground arith
  | inr (x, taken) ↦ ground (arith, v.table.back g x)
]

lookup-release :
    (ep : Epoll) (fd g : ℕ)
    → lookup (record ep { index = update ep.index fd none }) g
      ≡ (if g == fd then none else lookup ep g)
unfolding lookup
lookup-release ep fd g = ground arith

lookup-overwrite :
    (ep : Epoll) (hole source g : ℕ)
    → HasHole ep.cap ep.used hole ep.index (fds ep)
    → source < ep.used
    → source ≢ hole
    → lookup (overwrite ep hole source) g ≡ lookup ep g
unfolding lookup overwrite
lookup-overwrite ep hole source g t p q = elim (Option-cases (ep.index g)) [
  | inl free ↦ ground (arith, t.there source)
  | inr (x, taken) ↦ ground (arith, t.there source, t.back g x)
]

lookup-leave_filled :
    (ep : Epoll) (idx g : ℕ)
    → HasHole ep.cap ep.used idx ep.index (fds ep)
    → ep.fill ≤ ep.used
    → lookup (leave_filled ep idx).0 g ≡ lookup ep g
unfolding leave_filled
lookup-leave_filled ep idx g t h = elim (Bool-cases (ltb idx ep.fill)) [
  | inr outside ↦ rw outside
  | inl inside ↦ elim (Bool-cases (ltb idx (ep.fill - 1))) [
    | inr last ↦ rw (inside, last) (lookup-counts ep _ _ g)
    | inl before ↦
        let less = record ep { fill = ep.fill - 1 } in
        let same = lookup-overwrite less idx (ep.fill - 1) g t (ground arith) (ground arith) in
        rw (inside, before) (same ∙ lookup-counts ep _ _ g)
  ]
]

lookup-leave_used :
    (ep : Epoll) (hole g : ℕ) → IsOpen ep hole → lookup (leave_used ep hole) g ≡ lookup ep g
unfolding leave_used overwrite
lookup-leave_used ep hole g o =
    let inside : hole < ep.used = o.table.inside in
    elim (Bool-cases (ltb hole (ep.used - 1))) [
      | inr last ↦ rw last (lookup-counts ep _ _ g)
      | inl before ↦
          let less = record ep { used = ep.used - 1 } in
          let same =
            lookup-overwrite ep hole (ep.used - 1) g o.table (omega arith) (ground arith) in
          rw before (lookup-counts (overwrite ep hole (ep.used - 1)) _ _ g ∙ same)
    ]

pub lookup-close_item :
    (ep : Epoll) (fd idx g : ℕ)
    → IsValid ep
    → fd < ep.cap
    → ep.index fd ≡ some idx
    → lookup (close_item ep fd idx) g ≡ (if g == fd then none else lookup ep g)
unfolding close_item
lookup-close_item ep fd idx g v h e =
    let less = record ep { index = update ep.index fd none } in
    let hole = release-HasHole fd idx v.table h e in
    let out = leave_filled less idx in
    lookup-leave_used out.0 out.1 g (leave_filled-IsOpen less idx hole v.fill_in)
    ∙ lookup-leave_filled less idx g hole v.fill_in
    ∙ lookup-release ep fd g
