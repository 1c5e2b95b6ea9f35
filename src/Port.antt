-- ===== src/Port.antt =====
-- src/port.c: the back end on Solaris event ports. The kernel is a parameter: `port_associate` and
-- `port_dissociate`; it takes a descriptor out of the port when an event of it is handed out.
pub mod Session
mod Tests
use eframework.Base.{
  ℕ, ◌-◌, ◌*◌, ◌/◌, ◌%◌, Bool, Option, none, some, List, [], take, ltb, if◌then◌else◌, not, ◌==◌,
  ◌≡◌, true, false,
}
use eframework.Base.Int.{ℤ, pos, negsuc, less}
use eframework.Epoll.{Event}

pub record Kernel (K : Type 0) : Type 0 where
  pub port_associate : K → (fd : ℕ) → Event → ℤ × K
  pub port_dissociate : K → (fd : ℕ) → ℤ × K
  pub holds : K → (fd : ℕ) → Bool
  pub fire : K → (fd : ℕ) → K

-- What port_associate(3C) says: an event that is handed out takes its descriptor out of the port.
abbrev pub IsOneShot : {K : Type 0} → Kernel K → Type 0
IsOneShot {K} kernel = (k : K) (fd : ℕ) → kernel.holds (kernel.fire k fd) fd ≡ false

module _ {K : Type 0} (kernel : Kernel K) where
  -- `ef_port_associate`.
  unfoldable pub associate : K → (fd events ptr : ℕ) → (fired : Bool) → ℤ × K
  associate k fd events ptr fired =
      kernel.port_associate k fd (record { events = events; ptr = ptr })

  -- `ef_port_dissociate`.
  unfoldable pub dissociate : K → (fd : ℕ) → (fired onclose : Bool) → ℤ × K
  dissociate k fd fired onclose = if fired then (pos 0, k) else kernel.port_dissociate k fd

  -- `ef_port_unset`.
  unfoldable pub unset : K → (fd events : ℕ) → ℤ × K
  unset k fd events = (pos 0, k)

-- `timespec_t`.
pub record Timeout : Type 0 where
  pub tv_sec : ℕ
  pub tv_nsec : ℕ

abbrev pub etime : ℕ
etime = 62

-- `ef_port_wait`; `answer` is what `port_getn` returns, `errno`, the number of events and the events, for a
-- number of events and a timeout.
unfoldable pub wait :
    (cap count millisecs : ℕ) → (answer : ℕ → Timeout → ℤ × ℕ × ℕ × List Event) → ℤ × List Event
wait cap count millisecs answer =
    let timeout : Timeout = record {
      tv_sec = millisecs / 1000;
      tv_nsec = millisecs % 1000 * 1000000;
    } in
    let (ret, errno, nget, events) = answer (if ltb cap count then cap else count) timeout in
    if less ret (pos 0)
    then if not (errno == etime) then (negsuc 0, []) else (pos 0, [])
    else (pos nget, take nget events)

-- `ef_port_create`: the capacity, if the memory is granted and the kernel gives a port.
unfoldable pub create : (granted : Bool) → (ptfd : ℤ) → (cap : ℕ) → Option ℕ
create granted ptfd cap =
    if granted
    then if less ptfd (pos 0) then none else some (if ltb cap 128 then 128 else cap)
    else none
