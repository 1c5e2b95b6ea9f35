-- ===== src/Epollet/Release.antt =====
-- ef_epoll_dissociate and ef_epoll_unset of src/epollet.c, as changes of a map.
use eframework.Base.{
  ℕ, ◌<◌, ◌≡◌, refl, ◌∙◌, inl, inr, Bool, true, Option, none, some, arith, leb, ◌==◌, if◌then◌else◌,
  Bool-cases, Option-cases,
}
use eframework.Table.{update}
use eframework.Epollet.{Item, Epoll, IsValid, quiet_item, unset_item, unset, dissociate, is_ready}
use eframework.Epollet.Flags.{clear_bits}
use eframework.Epollet.Valid.{withdraw-IsValid, rewrite-IsValid, close_item-IsValid}
use eframework.Epollet.Lookup.{lookup, lookup-withdraw, lookup-rewrite, lookup-close_item}
use eframework.Epollet.Contract.{lookup_here, lookup_free}

-- The item of a descriptor after a call of `ef_epoll_dissociate`.
abbrev pub dissociated : Bool → Option Item → Option Item
dissociated onclose none = none
dissociated onclose (some it) = if onclose then none else some (record it { waiting = 0 })

lookup_outside : (ep : Epoll) (fd : ℕ) → leb ep.cap fd ≡ true → lookup ep fd ≡ none
unfolding lookup
lookup_outside ep fd h = ground arith

-- A descriptor without an item, for a function that keeps `none`.
nothing_there :
    (ep : Epoll) (fd g : ℕ) (f : Option Item → Option Item)
    → f none ≡ none
    → lookup ep fd ≡ none
    → lookup ep g ≡ (if g == fd then f (lookup ep fd) else lookup ep g)
nothing_there ep fd g f p e = ground arith

quiet_item_lem :
    (ep : Epoll) (fd idx g : ℕ)
    → IsValid ep
    → fd < ep.cap
    → ep.index fd ≡ some idx
    → IsValid (quiet_item ep idx)
      × (lookup (quiet_item ep idx) g
          ≡ (if g == fd then some (record (ep.items idx) { waiting = 0 }) else lookup ep g))
unfolding quiet_item
quiet_item_lem ep fd idx g v h e =
    let it = record (ep.items idx) { waiting = 0 } in
    let changed = record ep { items = update ep.items idx it } in
    let valid = rewrite-IsValid ep idx it v refl in
    let inside : idx < ep.used = (v.table.back fd idx h e).0 in
    (
      withdraw-IsValid changed idx valid inside,
      lookup-withdraw changed idx g valid inside ∙ lookup-rewrite ep fd idx g it v h e,
    )

-- `ef_epoll_dissociate` on a valid object takes the descriptor out of the table on a close, and
-- otherwise makes it wait for nothing; what has fired is kept. No other item changes, and the
-- object stays valid.
pub epollet_dissociate-lookup :
    (ep : Epoll) (fd g : ℕ) (onclose : Bool)
    → IsValid ep
    → IsValid (dissociate ep fd onclose)
      × (lookup (dissociate ep fd onclose) g
          ≡ (if g == fd then dissociated onclose (lookup ep fd) else lookup ep g))
unfolding dissociate
epollet_dissociate-lookup ep fd g onclose v = elim (Bool-cases (leb ep.cap fd)) [
  | inl outside ↦
      rw outside
        (v, nothing_there ep fd g (dissociated onclose) refl (lookup_outside ep fd outside))
  | inr inside ↦ elim (Option-cases (ep.index fd)) [
    | inl free ↦
        rw (inside, free, dissociate)
          (v, nothing_there ep fd g (dissociated onclose) refl (lookup_free ep fd free))
    | inr (idx, taken) ↦
        let h : fd < ep.cap = ground arith in
        let here = lookup_here ep fd idx h taken in
        elim (Bool-cases onclose) [
          | inl closing ↦
              rw (inside, taken, closing, here, dissociate)
                (close_item-IsValid ep fd idx v h taken, lookup-close_item ep fd idx g v h taken)
          | inr staying ↦
              rw (inside, taken, staying, here, dissociate) (quiet_item_lem ep fd idx g v h taken)
        ]
  ]
]

abbrev pub used_up : Option Item → ℕ → Option Item
used_up none events = none
used_up (some it) events = some (record it { fired = clear_bits it.fired events })

unset_item_lem :
    (ep : Epoll) (fd idx events g : ℕ)
    → IsValid ep
    → fd < ep.cap
    → ep.index fd ≡ some idx
    → IsValid (unset_item ep idx events)
      × (lookup (unset_item ep idx events) g ≡ (
          if g == fd
          then some (record (ep.items idx) { fired = clear_bits (ep.items idx).fired events })
          else lookup ep g))
unfolding unset_item
unset_item_lem ep fd idx events g v h e =
    let it = record (ep.items idx) { fired = clear_bits (ep.items idx).fired events } in
    let changed = record ep { items = update ep.items idx it } in
    let valid = rewrite-IsValid ep idx it v refl in
    let inside : idx < ep.used = (v.table.back fd idx h e).0 in
    let items = lookup-rewrite ep fd idx g it v h e in
    elim (Bool-cases (is_ready (changed.items idx))) [
      | inl still ↦ rw still (valid, items)
      | inr over ↦ rw over (
        withdraw-IsValid changed idx valid inside,
        lookup-withdraw changed idx g valid inside ∙ items,
      )
    ]

-- `ef_epoll_unset` on a valid object clears the given events of the descriptor, changes no other
-- item, and keeps the object valid.
pub epollet_unset-lookup :
    (ep : Epoll) (fd events g : ℕ)
    → IsValid ep
    → IsValid (unset ep fd events)
      × (lookup (unset ep fd events) g
          ≡ (if g == fd then used_up (lookup ep fd) events else lookup ep g))
unfolding unset
epollet_unset-lookup ep fd events g v = elim (Bool-cases (leb ep.cap fd)) [
  | inl outside ↦
      rw outside
        (v, nothing_there ep fd g (λ o. used_up o events) refl (lookup_outside ep fd outside))
  | inr inside ↦ elim (Option-cases (ep.index fd)) [
    | inl free ↦
        rw (inside, free, unset)
          (v, nothing_there ep fd g (λ o. used_up o events) refl (lookup_free ep fd free))
    | inr (idx, taken) ↦
        let h : fd < ep.cap = ground arith in
        rw (inside, taken, lookup_here ep fd idx h taken, unset)
          (unset_item_lem ep fd idx events g v h taken)
  ]
]
