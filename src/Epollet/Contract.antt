-- ===== src/Epollet/Contract.antt =====
-- What the functions of the edge-triggered back end promise, as changes of a map.
use eframework.Base.{
  ℕ, ◌≤◌, ◌<◌, ◌≡◌, refl, ap, ◌∙◌, inl, inr, Bool, true, false, not, ◌&&◌, Option, none, some,
  arith, ◌==◌, if◌then◌else◌, Bool-cases, Option-cases,
}
use eframework.Epollet.{
  Item, Epoll, IsValid, Association, failed, waits, can_serve, expand, add_item, change_item,
  settle, register, associate, is_ready,
}
use eframework.Epollet.Flags.{epoll_out}
use eframework.Epollet.Valid.{
  expand-IsValid, expand-lt, admit-IsValid, rewrite-IsValid, add_item-IsValid,
}
use eframework.Epollet.Lookup.{lookup, lookup-expand, lookup-admit, lookup-rewrite, lookup-add_item}

-- The item of a descriptor after a call that asks for `events`: what fired is remembered.
abbrev pub asked : Option Item → (fd events ptr : ℕ) → Item
asked none fd events ptr = record { fd = fd; waiting = events; fired = epoll_out; ptr = ptr }
asked (some it) fd events ptr = record it { waiting = events; ptr = ptr }

abbrev pub is_none : Option Item → Bool
is_none none = true
is_none (some _) = false

-- The answer for an item that is in the table.
abbrev pub answer : Item → Association
answer it = if is_ready it then can_serve else waits

-- An object after a call: valid, with the items of `spec`, and what the call returned.
pub record Gives (out : Association × Epoll) (res : Association) (spec : ℕ → Option Item)
    : Type 0 where
  pub valid : IsValid out.1
  pub result : out.0 ≡ res
  pub items : (g : ℕ) → lookup out.1 g ≡ spec g

settle-Gives :
    (ep : Epoll) (idx : ℕ)
    → IsValid ep
    → idx < ep.used
    → Gives (settle ep idx) (answer (ep.items idx)) (lookup ep)
unfolding settle
settle-Gives ep idx v h = elim (Bool-cases (is_ready (ep.items idx))) [
  | inl ready ↦ rw ready (record {
    valid = admit-IsValid ep idx v h;
    result = refl;
    items = λ g. lookup-admit ep idx g v h;
  })
  | inr later ↦ rw later (record { valid = v; result = refl; items = λ g. refl })
]

pub lookup_here :
    (ep : Epoll) (fd : ℕ) (idx : ℕ)
    → fd < ep.cap
    → ep.index fd ≡ some idx
    → lookup ep fd ≡ some (ep.items idx)
unfolding lookup
lookup_here ep fd idx h e = ground arith

pub lookup_free : (ep : Epoll) (fd : ℕ) → ep.index fd ≡ none → lookup ep fd ≡ none
unfolding lookup
lookup_free ep fd e = ground arith

-- What is asked for goes to the descriptor, and nothing else changes.
abbrev pub asked_for : Epoll → (fd events ptr : ℕ) → ℕ → Option Item
asked_for ep fd events ptr g =
    if g == fd then some (asked (lookup ep fd) fd events ptr) else lookup ep g

abbrev pub registered : Bool → Epoll → (fd events ptr : ℕ) → Association
registered ctl_ok ep fd events ptr =
    if is_none (lookup ep fd) && not ctl_ok
    then failed
    else answer (asked (lookup ep fd) fd events ptr)

Gives-map :
    {out : Association × Epoll} {r r' : Association} {spec spec' : ℕ → Option Item}
    → Gives out r spec
    → r ≡ r'
    → ((g : ℕ) → spec g ≡ spec' g)
    → Gives out r' spec'
Gives-map o p q = record { valid = o.valid; result = o.result ∙ p; items = λ g. o.items g ∙ q g }

-- The new item, and the changed one.
module _ (ep : Epoll) (fd events ptr : ℕ) where
  added_item :
      (add_item ep fd events ptr).items ep.used
      ≡ record { fd = fd; waiting = events; fired = epoll_out; ptr = ptr }
  unfolding add_item
  added_item = ground arith

  added_last : ep.used < (add_item ep fd events ptr).used
  unfolding add_item
  added_last = omega arith

module _ (ep : Epoll) (idx events ptr : ℕ) where
  changed_item :
      (change_item ep idx events ptr).items idx
      ≡ record (ep.items idx) { waiting = events; ptr = ptr }
  unfolding change_item
  changed_item = ground arith

  changed_in : idx < ep.used → idx < (change_item ep idx events ptr).used
  unfolding change_item
  changed_in h = h

  changed-IsValid : IsValid ep → IsValid (change_item ep idx events ptr)
  unfolding change_item
  changed-IsValid v =
      rewrite-IsValid ep idx (record (ep.items idx) { waiting = events; ptr = ptr }) v refl

changed_lookup :
    (ep : Epoll) (fd idx events ptr g : ℕ)
    → IsValid ep
    → fd < ep.cap
    → ep.index fd ≡ some idx
    → lookup (change_item ep idx events ptr) g ≡ (
        if g == fd
        then some (record (ep.items idx) { waiting = events; ptr = ptr })
        else lookup ep g)
unfolding change_item
changed_lookup ep fd idx events ptr g v h e =
    lookup-rewrite ep fd idx g (record (ep.items idx) { waiting = events; ptr = ptr }) v h e

asked_for_known :
    (ep : Epoll) (fd events ptr g : ℕ) (o : Option Item)
    → lookup ep fd ≡ o
    → (if g == fd then some (asked o fd events ptr) else lookup ep g) ≡ asked_for ep fd events ptr g
asked_for_known ep fd events ptr g o e = rw e

register-Gives :
    (ctl_ok : Bool) (ep : Epoll) (fd events ptr : ℕ)
    → IsValid ep
    → fd < ep.cap
    → Gives
        (register ctl_ok ep fd events ptr)
        (registered ctl_ok ep fd events ptr)
        (asked_for ep fd events ptr)
unfolding register
register-Gives ctl_ok ep fd events ptr v h = elim (Option-cases (ep.index fd)) [
  | inl free ↦
      let added = add_item ep fd events ptr in
      let valid = add_item-IsValid ep fd events ptr v h free in
      let none_yet = lookup_free ep fd free in
      let items = λ (g : ℕ).
        lookup-add_item ep fd events ptr g v h free
        ∙ asked_for_known ep fd events ptr g none none_yet in
      elim (Bool-cases ctl_ok) [
        | inl granted ↦
            rw (free, granted, none_yet, register)
              (Gives-map (settle-Gives added ep.used valid (added_last ep fd events ptr))
                (ap answer (added_item ep fd events ptr)) items)
        | inr refused ↦
            rw (free, refused, none_yet, register)
              (record { valid = valid; result = refl; items = items })
      ]
  | inr (idx, taken) ↦
      let it = record (ep.items idx) { waiting = events; ptr = ptr } in
      let valid = rewrite-IsValid ep idx it v refl in
      let here = lookup_here ep fd idx h taken in
      let inside : idx < ep.used = (v.table.back fd idx h taken).0 in
      rw (taken, here, register)
        (Gives-map
          (settle-Gives (change_item ep idx events ptr) idx (changed-IsValid ep idx events ptr v)
            (changed_in ep idx events ptr inside))
          (ap answer (changed_item ep idx events ptr))
          (λ g.
            changed_lookup ep fd idx events ptr g v h taken
            ∙ asked_for_known ep fd events ptr g (some (ep.items idx)) here))
]

-- `ef_epoll_associate` on a valid object that has room for a descriptor: the object stays valid.
-- If the arrays cannot grow, -1 is returned and no item changes. Otherwise the descriptor has an
-- item with the given events and pointer, which keeps what has fired (a new one says that it is
-- writable), and no other item changes; the result is 1 exactly if the item can be served, and -1
-- if it is new and the kernel refuses it, though the item is kept.
pub epollet_associate-Gives :
    (index_ok items_ok events_ok ctl_ok : Bool) (ep : Epoll) (fd events ptr : ℕ)
    → IsValid ep
    → 1 ≤ ep.cap
    → Gives
        (associate index_ok items_ok events_ok ctl_ok ep fd events ptr)
        (if (expand index_ok items_ok events_ok ep fd).0
          then registered ctl_ok ep fd events ptr
          else failed)
        (if (expand index_ok items_ok events_ok ep fd).0
          then asked_for ep fd events ptr
          else lookup ep)
unfolding associate
epollet_associate-Gives index_ok items_ok events_ok ctl_ok ep fd events ptr v pos =
    let grown = expand index_ok items_ok events_ok ep fd in
    let valid = expand-IsValid index_ok items_ok events_ok ep fd v pos in
    let same = λ (g : ℕ). lookup-expand index_ok items_ok events_ok ep fd g pos in
    elim (Bool-cases grown.0) [
      | inr failed_to ↦ rw failed_to (record { valid = valid; result = refl; items = same })
      | inl done ↦
          let fits : fd < grown.1.cap = expand-lt index_ok items_ok events_ok ep fd pos done in
          rw done (
            Gives-map (register-Gives ctl_ok grown.1 fd events ptr valid fits)
              (ground (arith, same fd)) (λ g. ground (arith, same fd, same g)))
    ]
