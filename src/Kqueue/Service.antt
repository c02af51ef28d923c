-- ===== src/Kqueue/Service.antt =====
-- detail/os/reactor/kqueue/kqueue_service.cpp. The loops take fuel, one round for each entry and one
-- more. `dequeue` answers a std::optional, which the source uses as if it were the pointer in it, and which
-- `_reactor.initiate` does not take: the code of both loops does not build as it is. It is read as it
-- is meant, with the pointer of the entry; an empty answer, which does not occur, is a fault.
pub mod Deletion
pub mod Initiations
pub mod Lifetime
pub mod Reports
pub mod Requests
pub mod Draining
pub mod Race
pub mod Twice
use baba_io.Base.{
  ℕ, zero, suc, ◌==◌, Bool, true, false, Option, none, some, Table, [], if◌then◌else◌,
}
use baba_io.Library.SafeQueue
use baba_io.Library.BlockingQueue
use baba_io.Os.Codes.{ErrorCode, ok_code, invalid_handle}
use baba_io.Os.FileImpl
use baba_io.Epoll.Memory.{ok, fault, out_of_fuel, assertion_failed, bad_function_call}
use baba_io.Kqueue.State.{Service, Event, Kqueue, Operations, Complete}
use baba_io.Kqueue.Memory.{M, pure, ◌>>=◌, ◌>>◌, require, lift, update, load_event}
use baba_io.Kqueue.Impl
use baba_io.Kqueue.Interrupter
use baba_io.Kqueue.Reactor

-- The members before the body of the constructor runs; the generator of the idents is static, and the
-- lifetimes are those of the users.
abbrev pub initial : {W : Type 0} → (ident_generator : ℕ) → (lives : ℕ → Bool) → W → Service W
initial ident_generator lives w = record {
  run = true;
  register = λ key. none;
  id_generator = 0;
  descriptors = λ d. none;
  next_descriptor = 0;
  ident_generator = ident_generator;
  lives = lives;
  initiation_queue = SafeQueue.empty;
  completion_queue = BlockingQueue.empty;
  reactor_fd = invalid_handle;
  interrupter_fd = invalid_handle;
  interrupter = record {
    kqueue_fd = invalid_handle;
    read_end = invalid_handle;
    write_end = invalid_handle;
  };
  calls = [];
  world = w;
}

module _ {W : Type 0} (kq : Kqueue W) where
  -- The constructor, with that of the reactor, which goes on where `kqueue` fails.
  unfoldable pub construct : M W (Unit {0})
  unfolding Impl.create Interrupter.init
  construct = do
    (e, fd) ← lift (Impl.create kq)
    update (λ s. record s { reactor_fd = fd })
    Interrupter.init kq fd
    update (λ s. record s { interrupter_fd = s.interrupter.read_end })

  unfoldable pub stop : M W (Unit {0})
  unfolding Interrupter.interrupt BlockingQueue.stop
  stop = do
    update (λ s. record s { run = false })
    Interrupter.interrupt kq
    update (λ s. record s { completion_queue = BlockingQueue.stop s.completion_queue })

  -- The destructor: the interrupter goes before the reactor.
  unfoldable pub destroy : M W (Unit {0})
  unfolding Interrupter.destroy FileImpl.close
  destroy = do
    Interrupter.destroy kq
    update (λ s. record s { world = FileImpl.close kq.os s.reactor_fd s.world })

  module _ (ops : Operations W) where
    unfoldable pub process_initiation_queue : ℕ → M W (Unit {0})
    unfolding SafeQueue.size SafeQueue.dequeue Reactor.initiate
    process_initiation_queue zero s = fault out_of_fuel
    process_initiation_queue (suc fuel) s =
        let rest = process_initiation_queue fuel in
        if SafeQueue.size s.initiation_queue == 0
        then ok (tt, s)
        else (let (x, queue) = SafeQueue.dequeue s.initiation_queue in
            (do evt ← require assertion_failed x; Reactor.initiate kq ops evt; rest)
              (record s { initiation_queue = queue }))

    -- `evt->complete()` of what is taken from the queue.
    unfoldable pub complete : (evt : ℕ) → M W (Unit {0})
    unfolding Reactor.run_complete
    complete evt = do
      e ← load_event evt
      c ← require bad_function_call e.complete
      Reactor.run_complete kq ops c

    unfoldable pub process_completion_queue : ℕ → M W (Unit {0})
    unfolding BlockingQueue.size BlockingQueue.dequeue complete
    process_completion_queue zero s = fault out_of_fuel
    process_completion_queue (suc fuel) s =
        let rest = process_completion_queue fuel in
        if BlockingQueue.size s.completion_queue == 0
        then ok (tt, s)
        else (let (x, queue) = BlockingQueue.dequeue s.completion_queue in
            (do evt ← require bad_function_call x; complete evt; rest)
              (record s { completion_queue = queue }))

    -- One round of `reactor_process`, whose loop ends when `_run` is false; the code of `wait` is
    -- dropped.
    unfoldable pub reactor_round : ℕ → M W (Unit {0})
    unfolding process_initiation_queue Reactor.wait
    reactor_round fuel = do process_initiation_queue fuel; e ← Reactor.wait kq ops; pure tt
