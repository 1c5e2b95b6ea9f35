-- ===== src/Epoll.antt =====
-- src/epoll.c: the level-triggered back end, which keeps its descriptors in the kernel's object. The kernel
-- is a parameter: its state, and what `epoll_ctl` answers and makes of it.
pub mod Session
mod Tests
use eframework.Base.{
  ℕ, ◌+◌, ◌*◌, Bool, true, false, Option, none, some, List, [], ◌∷◌, take, ltb, if◌then◌else◌, ◌≡◌,
  ◌==◌,
}
use eframework.Base.Int.{ℤ, pos, negsuc, less, abs}

-- The events and the pointer of `epoll_event_t` and `ef_event_t`.
pub record Event : Type 0 where
  pub events : ℕ
  pub ptr : ℕ

-- The kernel's object: `EPOLL_CTL_ADD` and `EPOLL_CTL_DEL`.
pub record Kernel (K : Type 0) : Type 0 where
  pub add : K → (fd : ℕ) → Event → ℤ × K
  pub delete : K → (fd : ℕ) → ℤ × K
  pub lookup : K → (fd : ℕ) → Option Event

-- What epoll_ctl(2) promises: a call that fails changes nothing, one that succeeds has its effect on the one
-- descriptor, and a descriptor that is there can be deleted.
pub record IsTable {K : Type 0} (kernel : Kernel K) : Type 0 where
  pub add_fails :
      (k : K) (fd : ℕ) (e : Event)
      → less (kernel.add k fd e).0 (pos 0) ≡ true
      → (kernel.add k fd e).1 ≡ k
  pub add_succeeds :
      (k : K) (fd : ℕ) (e : Event)
      → less (kernel.add k fd e).0 (pos 0) ≡ false
      → (x : ℕ)
      → kernel.lookup (kernel.add k fd e).1 x ≡ (if x == fd then some e else kernel.lookup k x)
  pub add_returns :
      (k : K) (fd : ℕ) (e : Event)
      → less (kernel.add k fd e).0 (pos 0) ≡ false
      → (kernel.add k fd e).0 ≡ pos 0
  pub delete_there :
      (k : K) (fd : ℕ) (e : Event)
      → kernel.lookup k fd ≡ some e
      → (x : ℕ)
      → kernel.lookup (kernel.delete k fd).1 x ≡ (if x == fd then none else kernel.lookup k x)

module _ {K : Type 0} (kernel : Kernel K) where
  -- `ef_epoll_associate`.
  unfoldable pub associate : K → (fd events ptr : ℕ) → (fired : Bool) → ℤ × K
  associate k fd events ptr fired =
      if fired then (pos 0, k) else kernel.add k fd (record { events = events; ptr = ptr })

  -- `ef_epoll_dissociate`, which looks at neither flag.
  unfoldable pub dissociate : K → (fd : ℕ) → (fired onclose : Bool) → ℤ × K
  dissociate k fd fired onclose = kernel.delete k fd

  -- `ef_epoll_unset`.
  unfoldable pub unset : K → (fd events : ℕ) → ℤ × K
  unset k fd events = (pos 0, k)

-- `ef_epoll_wait`; `answer` is what `epoll_wait` returns and puts into the array, for a number of events.
unfoldable pub wait : (cap count : ℕ) → (answer : ℕ → ℤ × List Event) → ℤ × List Event
wait cap count answer =
    let (ret, events) = answer (if ltb cap count then cap else count) in
    if less (pos 0) ret then (ret, take (abs ret) events) else (ret, [])

-- `ef_epoll_create`: the capacity, if the memory is granted and the kernel gives an object.
unfoldable pub create : (granted : Bool) → (epfd : ℤ) → (cap : ℕ) → Option ℕ
create granted epfd cap =
    if granted
    then if less epfd (pos 0) then none else some (if ltb cap 128 then 128 else cap)
    else none
