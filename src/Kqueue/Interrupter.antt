-- ===== src/Kqueue/Interrupter.antt =====
-- detail/os/reactor/kqueue/kqueue_interrupter.cpp: the self pipe that ends a wait of the reactor.
use baba_io.Base.{◌==◌, ◌==ℤ◌, minus_one, false, not, ◌&&◌, if◌then◌else◌}
use baba_io.Os.Codes.{IoHandle, eagain}
use baba_io.Os.Kernel.{Ret}
use baba_io.Os.FileImpl
use baba_io.Epoll.Memory.{aborted}
use baba_io.Epoll.Interrupter.{with_nonblock}
use baba_io.Kqueue.State.{Kqueue, evfilt_read, self_pipe}
use baba_io.Kqueue.Memory.{M, pure, fail, ◌>>=◌, ◌>>◌, lift, update}

-- `std::abort` where the call has failed.
abbrev abort_on_error : {W : Type 0} → Ret → M W (Unit {0})
abort_on_error r = if r.value ==ℤ minus_one then fail aborted else pure tt

module _ {W : Type 0} (kq : Kqueue W) where
  unfoldable pub make_nonblocking : IoHandle → M W (Unit {0})
  make_nonblocking fd = do
    flags ← lift (kq.os.fcntl_getfl fd)
    abort_on_error flags
    r ← lift (kq.os.fcntl_setfl fd (with_nonblock flags.value))
    abort_on_error r

  -- The read end is added without EV_ONESHOT: it is reported as long as there is something to read.
  unfoldable pub init : IoHandle → M W (Unit {0})
  unfolding make_nonblocking
  init kqueue_fd = do
    (r, read_end, write_end) ←
        lift (λ w. let (r, ends, w') = kq.os.pipe w in ((r, ends.0, ends.1), w'))
    update (λ s. record s {
      interrupter = record { kqueue_fd = kqueue_fd; read_end = read_end; write_end = write_end };
    })
    abort_on_error r
    make_nonblocking read_end
    make_nonblocking write_end
    added ← lift (
        kq.kevent_add kqueue_fd (record {
          ident = read_end;
          filter = evfilt_read;
          oneshot = false;
          fflags = 0;
          amount = 0;
          udata = self_pipe;
        }))
    abort_on_error added

  unfoldable pub interrupt : M W (Unit {0})
  interrupt s =
      (do
        r ← lift (kq.os.write s.interrupter.write_end 0 1)
        if (r.value ==ℤ minus_one) && not (r.errno == eagain) then fail aborted else pure tt)
        s

  -- The destructor, and then that of the event of the read end, which closes it.
  unfoldable pub destroy : M W (Unit {0})
  unfolding FileImpl.close
  destroy = do
    update (λ s. record s { world = kq.os.close s.interrupter.write_end s.world })
    update (λ s. record s { world = FileImpl.close kq.os s.interrupter.read_end s.world })
