-- ===== src/Epoll/Interrupter.antt =====
-- detail/os/reactor/epoll/epoll_interrupter.cpp: the self pipe that ends a wait of the reactor.
use baba_io.Base.{
  ℕ, ℤ, pos, negsuc, ◌==ℤ◌, minus_one, Bool, ◌+◌, ◌-◌, ◌/◌, ◌%◌, true, not, ◌&&◌, none, insert,
  ◌==◌, if◌then◌else◌,
}
use baba_io.Os.Codes.{IoHandle, eagain}
use baba_io.Os.Kernel.{Kernel, Ret, epoll_ctl_add, epoll_ctl_del}
use baba_io.Epoll.State.{Service, Descriptor}
use baba_io.Epoll.Memory.{M, ok, pure, fail, aborted, ◌>>=◌, ◌>>◌, lift, update}

-- `std::abort` where the call has failed.
abbrev abort_on_error : {W : Type 0} → Ret → M W (Unit {0})
abort_on_error r = if r.value ==ℤ minus_one then fail aborted else pure tt

-- `flags |= O_NONBLOCK`; the flags are not negative here. O_NONBLOCK is bit 11.
abbrev pub with_nonblock : ℤ → ℤ
with_nonblock (pos flags) = if flags / 2048 % 2 == 1 then pos flags else pos (flags + 2048)
with_nonblock (negsuc n) = if n / 2048 % 2 == 1 then negsuc (n - 2048) else negsuc n

-- A descriptor as its default constructor leaves it.
abbrev pub fresh_descriptor : Descriptor
fresh_descriptor = record {
  fd = minus_one;
  read_event = none;
  write_event = none;
  event_mask = 0;
  in_scope = true;
}

-- `new reactor_io_descriptor()`.
unfoldable pub new_descriptor : {W : Type 0} → M W ℕ
new_descriptor s =
    let d = s.next_descriptor in
    ok (
      d,
      record s { descriptors = insert s.descriptors d fresh_descriptor; next_descriptor = d + 1 },
    )

module _ {W : Type 0} (os : Kernel W) where
  unfoldable pub make_nonblocking : IoHandle → M W (Unit {0})
  make_nonblocking fd = do
    flags ← lift (os.fcntl_getfl fd)
    abort_on_error flags
    r ← lift (os.fcntl_setfl fd (with_nonblock flags.value))
    abort_on_error r

  unfoldable pub interrupt : M W (Unit {0})
  interrupt s =
      (do
        r ← lift (os.write s.interrupter.write_end 0 1)
        if (r.value ==ℤ minus_one) && not (r.errno == eagain) then fail aborted else pure tt)
        s

  unfoldable pub close : M W (Unit {0})
  close s =
      (do
        r ← lift (
            os.epoll_ctl s.interrupter.epoll_fd epoll_ctl_del s.interrupter.read_end
              (record { events = 0; ptr = 0 }))
        abort_on_error r
        update (λ t. record t { world = os.close s.interrupter.read_end t.world })
        update (λ t. record t { world = os.close s.interrupter.write_end t.world }))
        s

  unfoldable pub init : IoHandle → M W (Unit {0})
  unfolding make_nonblocking new_descriptor
  init epoll_fd = do
    (r, read_end, write_end) ←
        lift (λ w. let (r, ends, w') = os.pipe w in ((r, ends.0, ends.1), w'))
    update (λ s. record s {
      interrupter = record { epoll_fd = epoll_fd; read_end = read_end; write_end = write_end };
    })
    abort_on_error r
    make_nonblocking read_end
    make_nonblocking write_end
    d ← new_descriptor
    update (λ s. record s {
      descriptors = insert s.descriptors d (record fresh_descriptor { fd = read_end });
    })
    added ← lift (os.epoll_ctl epoll_fd epoll_ctl_add read_end (record { events = 1; ptr = d }))
    abort_on_error added

-- The write to the self pipe fails, and not because the pipe is full.
abbrev pub write_fails : {W : Type 0} → Kernel W → Service W → Bool
write_fails os s =
    ((os.write s.interrupter.write_end 0 1 s.world).0.value ==ℤ minus_one)
    && not ((os.write s.interrupter.write_end 0 1 s.world).0.errno == eagain)

-- The state of the system after the write.
abbrev pub written : {W : Type 0} → Kernel W → Service W → W
written os s = (os.write s.interrupter.write_end 0 1 s.world).1
