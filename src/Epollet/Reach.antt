-- ===== src/Epollet/Reach.antt =====
-- The objects that calls of src/epollet.c lead to, from a new one on.
use mathlib.Core.Path.{subst}
use eframework.Base.{ℕ, ◌≤◌, ◌≡◌, ap, ◌∙◌, Bool, Option, some, List, arith, some_inj, sym}
use eframework.Epollet.{
  Item, Epoll, Event, IsValid, FillIsReady, create, associate, dissociate, unset, wait,
}
use eframework.Epollet.Valid.{create-IsValid, expand-IsValid}
use eframework.Epollet.Contract.{epollet_associate-Gives}
use eframework.Epollet.Release.{epollet_dissociate-lookup, epollet_unset-lookup}
use eframework.Epollet.Filled.{NotFilled, associate-Ready, dissociate-Ready, unset-Ready}
use eframework.Epollet.Wait.{KnownAnswers, epollet_wait_lem}
use eframework.Epollet.Capacity.{associate-cap, dissociate-cap, unset-cap, wait-cap}

-- The objects that calls lead to. A descriptor is associated while it is not in the filled area, and
-- the kernel reports only descriptors that have an item.
pub data Reach : Epoll → Type 0 where
  created :
      (ep_ok index_ok items_ok events_ok epfd_ok : Bool) (junk : ℕ → Item) (cap : ℕ) (ep : Epoll)
      → create ep_ok index_ok items_ok events_ok epfd_ok junk cap ≡ some ep
      → Reach ep
  associated :
      (index_ok items_ok events_ok ctl_ok : Bool) (ep : Epoll) (fd events ptr : ℕ)
      → Reach ep
      → NotFilled ep fd
      → Reach (associate index_ok items_ok events_ok ctl_ok ep fd events ptr).1
  dissociated : (ep : Epoll) (fd : ℕ) (onclose : Bool) → Reach ep → Reach (dissociate ep fd onclose)
  used : (ep : Epoll) (fd events : ℕ) → Reach ep → Reach (unset ep fd events)
  waited :
      (ep : Epoll) (answers : Option (List (ℕ × ℕ))) (count : ℕ) (out : Option (List Event))
      (ep' : Epoll)
      → Reach ep
      → KnownAnswers ep answers
      → wait ep answers count ≡ some (out, ep')
      → Reach ep'

pub record IsSound (ep : Epoll) : Type 0 where
  pub valid : IsValid ep
  pub ready : FillIsReady ep
  pub room : 1 ≤ ep.cap

create-fill :
    (ep_ok index_ok items_ok events_ok epfd_ok : Bool) (junk : ℕ → Item) (cap : ℕ) (ep : Epoll)
    → create ep_ok index_ok items_ok events_ok epfd_ok junk cap ≡ some ep
    → ep.fill ≡ 0
unfolding create
create-fill ep_ok index_ok items_ok events_ok epfd_ok junk cap ep e = ground arith

-- Every object that calls of the edge-triggered back end lead to from a new one is valid, has only
-- items that can be served in its filled area, and has room for a descriptor; descriptors are
-- associated while they are not in the filled area, and the kernel reports only descriptors that
-- have an item.
pub Reach-IsSound : (ep : Epoll) → Reach ep → IsSound ep
Reach-IsSound _ (created ep_ok index_ok items_ok events_ok epfd_ok junk cap ep e) =
    let (valid, empty, room, more) =
      create-IsValid ep_ok index_ok items_ok events_ok epfd_ok junk cap e in
    let none_filled = create-fill ep_ok index_ok items_ok events_ok epfd_ok junk cap ep e in
    record { valid = valid; ready = λ i h. absurd (omega (arith, none_filled)); room = omega arith }
Reach-IsSound _ (associated index_ok items_ok events_ok ctl_ok ep fd events ptr r out) =
    let s = Reach-IsSound ep r in
    record {
      valid =
          (epollet_associate-Gives index_ok items_ok events_ok ctl_ok ep fd events ptr s.valid
            s.room).valid;
      ready =
          associate-Ready index_ok items_ok events_ok ctl_ok ep fd events ptr
            (expand-IsValid index_ok items_ok events_ok ep fd s.valid s.room) s.ready out;
      room = associate-cap index_ok items_ok events_ok ctl_ok ep fd events ptr s.room;
    }
Reach-IsSound _ (dissociated ep fd onclose r) =
    let s = Reach-IsSound ep r in
    record {
      valid = (epollet_dissociate-lookup ep fd fd onclose s.valid).0;
      ready = dissociate-Ready ep fd onclose s.ready;
      room = omega (arith, dissociate-cap ep fd onclose, s.room);
    }
Reach-IsSound _ (used ep fd events r) =
    let s = Reach-IsSound ep r in
    record {
      valid = (epollet_unset-lookup ep fd events fd s.valid).0;
      ready = unset-Ready ep fd events s.ready;
      room = omega (arith, unset-cap ep fd events, s.room);
    }
Reach-IsSound _ (waited ep answers count out ep' r k e) =
    let s = Reach-IsSound ep r in
    let w = epollet_wait_lem ep answers count 0 s.valid s.ready k in
    let same : w.result ≡ ep' = ap (λ x. x.1) (some_inj (sym w.runs ∙ e)) in
    record {
      valid = subst IsValid same w.valid;
      ready = subst FillIsReady same w.ready;
      room = omega (arith, wait-cap ep answers count out ep' e, s.room);
    }
