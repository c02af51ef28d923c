-- ===== src/Epoll/Reactor.antt =====
-- detail/os/reactor/epoll/epoll_reactor.cpp.
pub mod Rounds
pub mod Interrupts
use baba_io.Base.{
  ℕ, zero, suc, ℤ, pos, negsuc, ◌==ℤ◌, Bool, true, false, not, ◌&&◌, Option, none, some, List, [],
  ◌∷◌, ◌==◌, if◌then◌else◌,
}
use baba_io.Library.BlockingQueue
use baba_io.Os.Codes.{ErrorCode, ok_code, IoHandle, ebadf, eagain, epollerr, epollhup}
use baba_io.Os.Kernel.{Kernel, EpollEvent}
use baba_io.Os.EpollImpl
use baba_io.Os.FileImpl
use baba_io.Epoll.State.{
  Service, Event, Descriptor, Reactor, ReactorTask, read_reacts, write_reacts,
}
use baba_io.Epoll.Memory.{
  M, ok, fault, out_of_fuel, null_pointer, pure, fail, ◌>>=◌, ◌>>◌, require, lift, update, branch,
  when, load_descriptor, modify_descriptor, modify_event,
}
use baba_io.Epoll.Mask.{has_in, has_out, has_err, has_hup, clear_read_mask, clear_write_mask}
use baba_io.Epoll.Arm.{arm_descriptor}

-- MAX_EPOLL_EVENTS
abbrev pub max_epoll_events : ℕ
max_epoll_events = 100

-- `_enqueue_reactor_task`, the closure that the service gives to its reactor.
unfoldable pub enqueue_reactor_task : {W : Type 0} → ReactorTask → M W (Unit {0})
unfolding BlockingQueue.enqueue
enqueue_reactor_task task =
    update (λ s. record s { reactor_tasks = BlockingQueue.enqueue task s.reactor_tasks })

-- Marks an event and enqueues its reaction.
unfoldable pub deliver : {W : Type 0} → Option ℕ → ReactorTask → M W (Unit {0})
unfolding enqueue_reactor_task
deliver p task = do
  evt ← require null_pointer p
  modify_event evt (λ e. record e { has_active_event = true })
  enqueue_reactor_task task

-- The same where there is an event.
unfoldable pub deliver_any : {W : Type 0} → Option ℕ → ReactorTask → M W (Unit {0})
unfolding deliver
deliver_any none task = pure tt
deliver_any (some evt) task = deliver (some evt) task

-- The error of arming again, for both events of the descriptor.
unfoldable pub deliver_error : {W : Type 0} → (io_desc : ℕ) → M W (Unit {0})
unfolding deliver_any
deliver_error io_desc = do
  d ← load_descriptor io_desc
  deliver_any d.read_event (read_reacts io_desc ebadf)
  deliver_any d.write_event (write_reacts io_desc ebadf)

-- What was reported, for the events that were waiting for it.
unfoldable pub deliver_ready : {W : Type 0} → (events io_desc : ℕ) → M W (Unit {0})
unfolding deliver
deliver_ready events io_desc = do
  d ← load_descriptor io_desc
  when (has_in events)
      (deliver d.read_event (read_reacts io_desc (if has_hup events then epollhup else ok_code)))
  when (has_out events)
      (deliver d.write_event (write_reacts io_desc (if has_err events then epollerr else ok_code)))

-- What is reported is no longer waited for.
unfoldable pub clear_reported : {W : Type 0} → (events io_desc : ℕ) → M W (Unit {0})
unfolding clear_read_mask clear_write_mask
clear_reported events io_desc = do
  when (has_in events) (modify_descriptor io_desc clear_read_mask)
  when (has_out events) (modify_descriptor io_desc clear_write_mask)

module _ {W : Type 0} (os : Kernel W) where
  -- Reads the self pipe until it is empty. Another error than EAGAIN is logged, and read again.
  unfoldable pub consume : ℕ → M W (Unit {0})
  unfolding FileImpl.read
  consume zero s = fault out_of_fuel
  consume (suc fuel) s =
      let rest = consume fuel in
      (do
        r ← lift (FileImpl.read os s.reactor.interrupter_fd 0 1023)
        branch (not (r.ec == ok_code) && (r.ec == eagain)) (pure tt) rest)
        s

  -- An entry of the list for the descriptor of an object.
  unfoldable pub ready_io : EpollEvent → M W (Unit {0})
  unfolding arm_descriptor clear_reported deliver_error deliver_ready
  ready_io ev = do
    clear_reported ev.events ev.ptr
    d ← load_descriptor ev.ptr
    branch (d.event_mask == 0) (deliver_ready ev.events ev.ptr) (do
      ec ← arm_descriptor os ev.ptr
      branch (ec == ok_code) (deliver_ready ev.events ev.ptr) (deliver_error ev.ptr))

  -- The body of the loop.
  unfoldable pub entry : ℕ → EpollEvent → M W (Unit {0})
  unfolding consume ready_io
  entry fuel ev s =
      (do
        d ← load_descriptor ev.ptr
        branch (has_in ev.events && (d.fd ==ℤ s.reactor.interrupter_fd)) (consume fuel)
            (ready_io ev))
        s

  -- The first entries of the list, as many as the count says.
  unfoldable pub entries : ℕ → ℕ → List EpollEvent → M W (Unit {0})
  unfolding entry
  entries fuel zero evs s = ok (tt, s)
  entries fuel (suc n) [] s = ok (tt, s)
  entries fuel (suc n) (ev ∷ evs) s =
      let rest = entries fuel n evs in
      if s.reactor.run then (entry fuel ev >> rest) s else ok (tt, s)

  abbrev count : ℤ → ℕ
  count (pos n) = n
  count (negsuc n) = 0

  unfoldable pub wait : ℕ → M W ErrorCode
  unfolding EpollImpl.wait entries
  wait fuel s =
      (do
        (r, evs) ← lift (λ w.
            let (r, evs, w') = EpollImpl.wait os s.reactor.fd max_epoll_events w in ((r, evs), w'))
        branch (r.ec == ok_code) (do entries fuel (count r.ready_io_count) evs; pure ok_code)
            (pure r.ec))
        s

unfoldable pub stop : Reactor → Reactor
stop r = record r { run = false }

unfoldable pub set_interrupter_fd : IoHandle → Reactor → Reactor
set_interrupter_fd fd r = record r { interrupter_fd = fd }

module _ {W : Type 0} (os : Kernel W) where
  -- The constructor, which goes on where `epoll_create1` fails. That it has the program ignore SIGPIPE
  -- is not part of the state.
  unfoldable pub construct : M W (Unit {0})
  unfolding EpollImpl.create
  construct = do
    (e, fd) ← lift (EpollImpl.create os)
    update (λ s. record s { reactor = record (s.reactor) { fd = fd } })

  unfoldable pub close : M W (Unit {0})
  unfolding FileImpl.close
  close = update (λ s. record s { world = FileImpl.close os s.reactor.fd s.world })
