-- ===== src/Epollet/Filled.antt =====
-- The filled area of the edge-triggered back end, and which of its items can be served.
use eframework.Base.{
  ℕ, ◌-◌, ◌≤◌, ◌<◌, ◌≡◌, ◌≢◌, inl, inr, Bool, true, ◌&&◌, none, some, arith, leb, Bool-cases,
  Option-cases, bit_or,
}
use native.Mathlib.Decide.{ℕ_discrete}
use eframework.Table.{update}
use eframework.Epollet.{
  Item, Epoll, IsValid, FillIsReady, expand, exchange, admit, withdraw, add_item, change_item,
  settle, register, associate, overwrite, leave_filled, leave_used, close_item, quiet_item,
  unset_item, unset, dissociate, merge_item, is_ready, reportable,
}
use eframework.Base.Bit.{bit_and-zero_of_or}
use eframework.Epollet.Flags.{clear_bits, fired_bits, epoll_err, epoll_hup}

-- Ready but for the item at `idx`.
abbrev pub ReadyBut : Epoll → ℕ → Type 0
ReadyBut ep idx = (i : ℕ) → i < ep.fill → i ≢ idx → is_ready (ep.items i) ≡ true

pub admit-Ready :
    (ep : Epoll) (idx : ℕ)
    → FillIsReady ep
    → is_ready (ep.items idx) ≡ true
    → FillIsReady (admit ep idx)
unfolding admit exchange
admit-Ready ep idx f r i h = ground (arith, f i)

withdraw-Ready : (ep : Epoll) (idx : ℕ) → ReadyBut ep idx → FillIsReady (withdraw ep idx)
unfolding withdraw exchange
withdraw-Ready ep idx f i h = ground (arith, f i, f (ep.fill - 1))

leave_filled-Ready : (ep : Epoll) (idx : ℕ) → ReadyBut ep idx → FillIsReady (leave_filled ep idx).0
unfolding leave_filled overwrite
leave_filled-Ready ep idx f i h = ground (arith, f i, f (ep.fill - 1))

leave_used-Ready :
    (ep : Epoll) (hole : ℕ) → FillIsReady ep → ep.fill ≤ hole → FillIsReady (leave_used ep hole)
unfolding leave_used overwrite
leave_used-Ready ep hole f p i h = ground (arith, f i)

fill-leave_filled : (ep : Epoll) (idx : ℕ) → (leave_filled ep idx).0.fill ≤ (leave_filled ep idx).1
unfolding leave_filled overwrite
fill-leave_filled ep idx = ground arith

-- An item is rewritten that is not in the filled area, or is left out of account.
rewrite-Ready :
    (ep : Epoll) (idx : ℕ) (it : Item)
    → FillIsReady ep
    → ReadyBut (record ep { items = update ep.items idx it }) idx
rewrite-Ready ep idx it f i h ne = ground (arith, f i)

rewrite_outside-Ready :
    (ep : Epoll) (idx : ℕ) (it : Item)
    → FillIsReady ep
    → ep.fill ≤ idx
    → FillIsReady (record ep { items = update ep.items idx it })
rewrite_outside-Ready ep idx it f p i h = ground (arith, f i)

settle-Ready : (ep : Epoll) (idx : ℕ) → FillIsReady ep → FillIsReady (settle ep idx).1
unfolding settle
settle-Ready ep idx f = elim (Bool-cases (is_ready (ep.items idx))) [
  | inl ready ↦ rw ready (admit-Ready ep idx f ready)
  | inr later ↦ rw later f
]

-- The descriptor is not in the filled area, as after `ef_epoll_dissociate`.
abbrev pub NotFilled : Epoll → ℕ → Type 0
NotFilled ep fd = (idx : ℕ) → ep.index fd ≡ some idx → ep.fill ≤ idx

register-Ready :
    (ctl_ok : Bool) (ep : Epoll) (fd events ptr : ℕ)
    → IsValid ep
    → FillIsReady ep
    → NotFilled ep fd
    → FillIsReady (register ctl_ok ep fd events ptr).1
unfolding register add_item change_item
register-Ready ctl_ok ep fd events ptr v f out = elim (Option-cases (ep.index fd)) [
  | inl free ↦
      let added = add_item ep fd events ptr in
      let fine : FillIsReady added =
        λ (i : ℕ) (h : i < ep.fill). ground (arith, f i h, v.fill_in) in
      elim (Bool-cases ctl_ok) [
        | inl granted ↦ rw (free, granted, register) (settle-Ready added ep.used fine)
        | inr refused ↦ rw (free, refused, register) fine
      ]
  | inr (idx, taken) ↦
      rw (taken, register)
        (settle-Ready (change_item ep idx events ptr) idx (
          rewrite_outside-Ready ep idx (record (ep.items idx) { waiting = events; ptr = ptr }) f
            (out idx taken)))
]

expand-Ready :
    (index_ok items_ok events_ok : Bool) (ep : Epoll) (fd : ℕ)
    → FillIsReady ep
    → FillIsReady (expand index_ok items_ok events_ok ep fd).1
unfolding expand
expand-Ready index_ok items_ok events_ok ep fd f i h = ground (arith, f i)

expand-NotFilled :
    (index_ok items_ok events_ok : Bool) (ep : Epoll) (fd : ℕ)
    → NotFilled ep fd
    → NotFilled (expand index_ok items_ok events_ok ep fd).1 fd
unfolding expand
expand-NotFilled index_ok items_ok events_ok ep fd out i e = ground (arith, out i)

quiet_item-Ready : (ep : Epoll) (idx : ℕ) → FillIsReady ep → FillIsReady (quiet_item ep idx)
unfolding quiet_item
quiet_item-Ready ep idx f =
    let it = record (ep.items idx) { waiting = 0 } in
    withdraw-Ready (record ep { items = update ep.items idx it }) idx (rewrite-Ready ep idx it f)

all_ready :
    (ep : Epoll) (idx : ℕ) → ReadyBut ep idx → is_ready (ep.items idx) ≡ true → FillIsReady ep
all_ready ep idx f r i h = elim (ℕ_discrete i idx) [ yes e ↦ rw e r | no ne ↦ f i h ne ]

unset_item-Ready :
    (ep : Epoll) (idx events : ℕ) → FillIsReady ep → FillIsReady (unset_item ep idx events)
unfolding unset_item
unset_item-Ready ep idx events f =
    let it = record (ep.items idx) { fired = clear_bits (ep.items idx).fired events } in
    let changed = record ep { items = update ep.items idx it } in
    let but : ReadyBut changed idx = rewrite-Ready ep idx it f in
    elim (Bool-cases (is_ready (changed.items idx))) [
      | inl still ↦ rw still (all_ready changed idx but still)
      | inr over ↦ rw over (withdraw-Ready changed idx but)
    ]

close_item-Ready : (ep : Epoll) (fd idx : ℕ) → FillIsReady ep → FillIsReady (close_item ep fd idx)
unfolding close_item
close_item-Ready ep fd idx f =
    let less = record ep { index = update ep.index fd none } in
    let out = leave_filled less idx in
    leave_used-Ready out.0 out.1 (leave_filled-Ready less idx (λ i h ne. f i h))
      (fill-leave_filled less idx)

-- `ef_epoll_associate` keeps the filled area free of items that cannot be served, if the object is
-- valid when its arrays have grown and the descriptor is not in the filled area before.
pub associate-Ready :
    (index_ok items_ok events_ok ctl_ok : Bool) (ep : Epoll) (fd events ptr : ℕ)
    → IsValid (expand index_ok items_ok events_ok ep fd).1
    → FillIsReady ep
    → NotFilled ep fd
    → FillIsReady (associate index_ok items_ok events_ok ctl_ok ep fd events ptr).1
unfolding associate
associate-Ready index_ok items_ok events_ok ctl_ok ep fd events ptr v f out =
    let grown = expand index_ok items_ok events_ok ep fd in
    let ready = expand-Ready index_ok items_ok events_ok ep fd f in
    elim (Bool-cases grown.0) [
      | inr failed ↦ rw failed ready
      | inl done ↦ rw done (
          register-Ready ctl_ok grown.1 fd events ptr v ready
            (expand-NotFilled index_ok items_ok events_ok ep fd out))
    ]

pub dissociate-Ready :
    (ep : Epoll) (fd : ℕ) (onclose : Bool) → FillIsReady ep → FillIsReady (dissociate ep fd onclose)
unfolding dissociate
dissociate-Ready ep fd onclose f = elim (Bool-cases (leb ep.cap fd)) [
  | inl outside ↦ rw outside f
  | inr inside ↦ elim (Option-cases (ep.index fd)) [
    | inl free ↦ rw (inside, free, dissociate) f
    | inr (idx, taken) ↦ elim (Bool-cases onclose) [
      | inl closing ↦ rw (inside, taken, closing, dissociate) (close_item-Ready ep fd idx f)
      | inr staying ↦ rw (inside, taken, staying, dissociate) (quiet_item-Ready ep idx f)
    ]
  ]
]

pub unset-Ready : (ep : Epoll) (fd events : ℕ) → FillIsReady ep → FillIsReady (unset ep fd events)
unfolding unset
unset-Ready ep fd events f = elim (Bool-cases (leb ep.cap fd)) [
  | inl outside ↦ rw outside f
  | inr inside ↦ elim (Option-cases (ep.index fd)) [
    | inl free ↦ rw (inside, free, unset) f
    | inr (idx, taken) ↦ rw (inside, taken, unset) (unset_item-Ready ep idx events f)
  ]
]

-- More events do not make an item less ready.
fire-Ready :
    (it : Item) (events : ℕ)
    → is_ready it ≡ true
    → is_ready (record it { fired = bit_or it.fired events }) ≡ true
unfolding reportable fired_bits
fire-Ready it events r =
    ground
      (arith, bit_and-zero_of_or (bit_or (bit_or it.waiting epoll_err) epoll_hup) it.fired events)

pub merge_item-Ready :
    (ep : Epoll) (idx events : ℕ) → FillIsReady ep → FillIsReady (merge_item ep idx events)
unfolding merge_item
merge_item-Ready ep idx events f =
    let it = record (ep.items idx) { fired = bit_or (ep.items idx).fired events } in
    let changed = record ep { items = update ep.items idx it } in
    let but : ReadyBut changed idx = rewrite-Ready ep idx it f in
    elim (Bool-cases (leb ep.fill idx && is_ready (changed.items idx))) [
      | inl enters ↦ rw enters (
          admit-Ready changed idx (rewrite_outside-Ready ep idx it f (ground arith)) (ground arith))
      | inr stays ↦ rw stays (λ i h. elim (ℕ_discrete i idx) [
        | no ne ↦ but i h ne
        | yes e ↦
            let h' : i < ep.fill = h in
            let before : is_ready (ep.items idx) ≡ true = f idx (omega arith) in
            let here : changed.items idx ≡ it = ground arith in
            rw (e, here) (fire-Ready (ep.items idx) events before)
      ])
    ]
