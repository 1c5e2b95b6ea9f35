-- ===== src/Epollet/Capacity.antt =====
-- The capacity of the edge-triggered back end through its operations.
use eframework.Base.{
  ℕ, suc, ◌≤◌, ◌≡◌, refl, ap, ◌∙◌, inl, inr, Bool, ◌&&◌, Option, none, some, List, [], ◌∷◌, arith,
  leb, ◌==◌, Bool-cases, Option-cases, some_inj, sym, bit_or,
}
use eframework.Table.{update}
use eframework.Table.Growth.{double_until-lt}
use eframework.Epollet.{
  Epoll, Event, expand, exchange, admit, withdraw, add_item, change_item, settle, register,
  associate, overwrite, leave_filled, leave_used, close_item, quiet_item, dissociate, unset_item,
  unset, merge_item, merge, wait, is_ready,
}
use eframework.Epollet.Flags.{clear_bits}

-- The capacity is only ever raised.
admit-cap : (ep : Epoll) (idx : ℕ) → (admit ep idx).cap ≡ ep.cap
unfolding admit exchange
admit-cap ep idx = ground arith

withdraw-cap : (ep : Epoll) (idx : ℕ) → (withdraw ep idx).cap ≡ ep.cap
unfolding withdraw exchange
withdraw-cap ep idx = ground arith

close_item-cap : (ep : Epoll) (fd idx : ℕ) → (close_item ep fd idx).cap ≡ ep.cap
unfolding close_item leave_filled leave_used overwrite
close_item-cap ep fd idx = ground arith

pub dissociate-cap :
    (ep : Epoll) (fd : ℕ) (onclose : Bool) → (dissociate ep fd onclose).cap ≡ ep.cap
unfolding dissociate quiet_item
dissociate-cap ep fd onclose = elim (Bool-cases (leb ep.cap fd)) [
  | inl outside ↦ rw outside refl
  | inr inside ↦ elim (Option-cases (ep.index fd)) [
    | inl free ↦ rw (inside, free, dissociate) refl
    | inr (idx, taken) ↦ elim (Bool-cases onclose) [
      | inl closing ↦ rw (inside, taken, closing, dissociate) (close_item-cap ep fd idx)
      | inr staying ↦ rw (inside, taken, staying, dissociate) (withdraw-cap _ idx)
    ]
  ]
]

unset_item-cap : (ep : Epoll) (idx events : ℕ) → (unset_item ep idx events).cap ≡ ep.cap
unfolding unset_item
unset_item-cap ep idx events =
    let less = record ep {
      items =
          update ep.items idx
            (record (ep.items idx) { fired = clear_bits (ep.items idx).fired events });
    } in
    elim (Bool-cases (is_ready (less.items idx))) [
      | inl still ↦ rw still refl
      | inr over ↦ rw over (withdraw-cap less idx)
    ]

pub unset-cap : (ep : Epoll) (fd events : ℕ) → (unset ep fd events).cap ≡ ep.cap
unfolding unset
unset-cap ep fd events = elim (Bool-cases (leb ep.cap fd)) [
  | inl outside ↦ rw outside refl
  | inr inside ↦ elim (Option-cases (ep.index fd)) [
    | inl free ↦ rw (inside, free, unset) refl
    | inr (idx, taken) ↦ rw (inside, taken, unset) (unset_item-cap ep idx events)
  ]
]

expand-cap :
    (index_ok items_ok events_ok : Bool) (ep : Epoll) (fd : ℕ)
    → 1 ≤ ep.cap
    → 1 ≤ (expand index_ok items_ok events_ok ep fd).1.cap
unfolding expand
expand-cap index_ok items_ok events_ok ep fd h = ground (arith, double_until-lt (suc fd) ep.cap fd)

settle-cap : (ep : Epoll) (idx : ℕ) → (settle ep idx).1.cap ≡ ep.cap
unfolding settle
settle-cap ep idx = ground (arith, admit-cap ep idx)

register-cap :
    (ctl_ok : Bool) (ep : Epoll) (fd events ptr : ℕ)
    → (register ctl_ok ep fd events ptr).1.cap ≡ ep.cap
unfolding register add_item change_item
register-cap ctl_ok ep fd events ptr = elim (Option-cases (ep.index fd)) [
  | inl free ↦ elim (Bool-cases ctl_ok) [
    | inl granted ↦ rw (free, granted, register) (settle-cap (add_item ep fd events ptr) ep.used)
    | inr refused ↦ rw (free, refused, register) refl
  ]
  | inr (idx, taken) ↦ rw (taken, register) (settle-cap (change_item ep idx events ptr) idx)
]

pub associate-cap :
    (index_ok items_ok events_ok ctl_ok : Bool) (ep : Epoll) (fd events ptr : ℕ)
    → 1 ≤ ep.cap
    → 1 ≤ (associate index_ok items_ok events_ok ctl_ok ep fd events ptr).1.cap
unfolding associate
associate-cap index_ok items_ok events_ok ctl_ok ep fd events ptr h =
    let grown = expand index_ok items_ok events_ok ep fd in
    let pos = expand-cap index_ok items_ok events_ok ep fd h in
    elim (Bool-cases grown.0) [
      | inr failed ↦ rw failed pos
      | inl fine ↦ rw fine (omega (arith, pos, register-cap ctl_ok grown.1 fd events ptr))
    ]

merge_item-cap : (ep : Epoll) (idx events : ℕ) → (merge_item ep idx events).cap ≡ ep.cap
unfolding merge_item
merge_item-cap ep idx events =
    let more = record ep {
      items =
          update ep.items idx
            (record (ep.items idx) { fired = bit_or (ep.items idx).fired events });
    } in
    elim (Bool-cases (leb ep.fill idx && is_ready (more.items idx))) [
      | inl enters ↦ rw enters (admit-cap more idx)
      | inr stays ↦ rw stays refl
    ]

merge-cap :
    (ep : Epoll) (answers : List (ℕ × ℕ)) (ep' : Epoll)
    → merge ep answers ≡ some ep'
    → ep'.cap ≡ ep.cap
unfolding merge
merge-cap ep [] ep' e = ap (λ x. x.cap) (sym (some_inj e))
merge-cap ep ((fd, events) ∷ answers) ep' e = elim (Option-cases (ep.index fd)) [
  | inl free ↦ absurd (ground (arith, free))
  | inr (idx, taken) ↦
      let rest : merge (merge_item ep idx events) answers ≡ some ep' = ground (arith, taken, e) in
      merge-cap (merge_item ep idx events) answers ep' rest ∙ merge_item-cap ep idx events
]

pub wait-cap :
    (ep : Epoll) (answers : Option (List (ℕ × ℕ))) (count : ℕ) (out : Option (List Event))
    (ep' : Epoll)
    → wait ep answers count ≡ some (out, ep')
    → ep'.cap ≡ ep.cap
unfolding wait
wait-cap ep none count out ep' e = ground arith
wait-cap ep (some l) count out ep' e = elim (Bool-cases (ep.fill == 0)) [
  | inr filled ↦ ground (arith, filled)
  | inl empty ↦ elim (Option-cases (merge ep l)) [
    | inl wrong ↦ absurd (ground (arith, empty, wrong))
    | inr (merged, runs) ↦
        let same : merged ≡ ep' = ground (arith, empty, runs) in
        rw (← same) (merge-cap ep l merged runs)
  ]
]
