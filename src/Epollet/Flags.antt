-- ===== src/Epollet/Flags.antt =====
-- The event flags, as bits of an `int`.
use eframework.Base.{ℕ, ◌-◌, ◌^◌, bit_and, bit_or}

abbrev pub epoll_in : ℕ
epoll_in = 0x001

abbrev pub epoll_out : ℕ
epoll_out = 0x004

abbrev pub epoll_err : ℕ
epoll_err = 0x008

abbrev pub epoll_hup : ℕ
epoll_hup = 0x010

-- `(waiting | EPOLLERR | EPOLLHUP) & fired`
unfoldable pub fired_bits : ℕ → ℕ → ℕ
fired_bits waiting fired = bit_and (bit_or (bit_or waiting epoll_err) epoll_hup) fired

-- `fired & ~events`, in 32 bits.
unfoldable pub clear_bits : ℕ → ℕ → ℕ
clear_bits fired events = bit_and fired (2 ^ 32 - 1 - events)
