-- ===== src/Epoll/Mask.antt =====
-- detail/os/reactor/epoll/epoll_reactor_event.cpp: the event mask of a descriptor. EPOLLIN is bit 0
-- and EPOLLOUT bit 2; the operators on single bits are written as arithmetic.
pub mod Bits
use baba_io.Base.{ℕ, ◌+◌, ◌-◌, ◌/◌, ◌%◌, Bool, ◌==◌, if◌then◌else◌}
use baba_io.Epoll.State.{Descriptor}

-- `mask & EPOLLIN`, `mask & EPOLLOUT`, `mask & EPOLLERR` and `mask & EPOLLHUP` as tests.
unfoldable pub has_in : ℕ → Bool
has_in m = m % 2 == 1

unfoldable pub has_out : ℕ → Bool
has_out m = m / 4 % 2 == 1

unfoldable pub has_err : ℕ → Bool
has_err m = m / 8 % 2 == 1

unfoldable pub has_hup : ℕ → Bool
has_hup m = m / 16 % 2 == 1

unfoldable pub set_in : ℕ → ℕ
unfolding has_in
set_in m = if has_in m then m else m + 1

unfoldable pub set_out : ℕ → ℕ
unfolding has_out
set_out m = if has_out m then m else m + 4

unfoldable pub clear_in : ℕ → ℕ
unfolding has_in
clear_in m = if has_in m then m - 1 else m

unfoldable pub clear_out : ℕ → ℕ
unfolding has_out
clear_out m = if has_out m then m - 4 else m

unfoldable pub set_read_mask : Descriptor → Descriptor
set_read_mask d = record d { event_mask = set_in d.event_mask }

unfoldable pub set_write_mask : Descriptor → Descriptor
set_write_mask d = record d { event_mask = set_out d.event_mask }

unfoldable pub clear_read_mask : Descriptor → Descriptor
clear_read_mask d = record d { event_mask = clear_in d.event_mask }

unfoldable pub clear_write_mask : Descriptor → Descriptor
clear_write_mask d = record d { event_mask = clear_out d.event_mask }
