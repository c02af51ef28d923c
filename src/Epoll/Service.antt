-- ===== src/Epoll/Service.antt =====
-- detail/os/reactor/epoll/epoll_service.cpp.
pub mod Deletions
pub mod Stopping
use baba_io.Base.{
  ℕ, zero, suc, ◌==◌, Bool, true, false, not, ◌&&◌, Option, none, some, if◌then◌else◌, Table, [],
}
use baba_io.Library.BlockingQueue
use baba_io.Library.LockableQueue
use baba_io.Os.Codes.{ErrorCode, ok_code, IoHandle, invalid_handle}
use baba_io.Net.Storage.{AddrStorage, SockStorage}
use baba_io.Os.Kernel.{Kernel}
use baba_io.Os.EpollImpl
use baba_io.Os.FileImpl
use baba_io.Epoll.State.{Service, Strand, Registrar, Reactor, Interrupter, ReactorTask, hands_over}
use baba_io.Epoll.Memory.{
  M, ok, fault, out_of_fuel, assertion_failed, pure, fail, ◌>>=◌, ◌>>◌, require, lift, update,
}
use baba_io.Epoll.Registrar
use baba_io.Epoll.Interrupter
use baba_io.Epoll.Strand
use baba_io.Epoll.Reactor

-- Every strand of the vector.
abbrev on_strand : (Strand → Strand) → Option Strand → Option Strand
on_strand f none = none
on_strand f (some t) = some (f t)

abbrev each_strand : {W : Type 0} → (Strand → Strand) → M W (Unit {0})
each_strand f = update (λ s. record s { strands = λ k. on_strand f (s.strands k) })

-- The members before the body of the constructor runs.
abbrev pub initial : {W : Type 0} → SockStorage → AddrStorage → W → Service W
initial unwritten_sock unwritten_addr w = record {
  run = true;
  strands = λ k. none;
  next_strand = 0;
  reactor = record { run = true; fd = invalid_handle; interrupter_fd = invalid_handle };
  interrupter = record {
    epoll_fd = invalid_handle;
    read_end = invalid_handle;
    write_end = invalid_handle;
  };
  registrar = record { register = λ k. none; id_generator = 0 };
  reactor_tasks = BlockingQueue.empty;
  deletions = LockableQueue.empty;
  num_reactor_threads = 0;
  descriptors = λ k. none;
  next_descriptor = 0;
  accepting = λ k. none;
  next_accepting = 0;
  calls = [];
  unwritten_sock = unwritten_sock;
  unwritten_addr = unwritten_addr;
  world = w;
}

-- `if (reactor_threads == 0) { _num_reactor_threads = 4; }`: any other argument leaves the member
-- at its initial value.
unfoldable pub num_threads : ℕ → ℕ
num_threads reactor_threads = if reactor_threads == 0 then 4 else 0

unfoldable pub process_deletion_queue : {W : Type 0} → ℕ → M W (Unit {0})
unfolding LockableQueue.dequeue LockableQueue.size Reactor.enqueue_reactor_task
process_deletion_queue zero s = fault out_of_fuel
process_deletion_queue (suc fuel) s =
    let rest = process_deletion_queue fuel in
    if s.run && not (LockableQueue.size s.deletions == 0)
    then (do
      (evt, queue) ← require assertion_failed (LockableQueue.dequeue s.deletions)
      update (λ t. record t { deletions = queue })
      Reactor.enqueue_reactor_task (hands_over evt)
      rest)
        s
    else ok (tt, s)

module _ {W : Type 0} (os : Kernel W) where
  -- The constructor, with that of the reactor.
  unfoldable pub construct : (reactor_threads : ℕ) → M W (Unit {0})
  unfolding Reactor.construct Reactor.set_interrupter_fd Interrupter.init num_threads
  construct reactor_threads = do
    Reactor.construct os
    update (λ s. record s { num_reactor_threads = num_threads reactor_threads })
    λ s. Interrupter.init os s.reactor.fd s
    update (λ s. record s { reactor = Reactor.set_interrupter_fd s.interrupter.read_end s.reactor })

  unfoldable pub stop : M W (Unit {0})
  unfolding Strand.stop BlockingQueue.stop Reactor.stop Interrupter.interrupt
  stop = do
    update (λ s. record s { run = false })
    each_strand Strand.stop
    update (λ s. record s { reactor_tasks = BlockingQueue.stop s.reactor_tasks })
    update (λ s. record s { reactor = Reactor.stop s.reactor })
    Interrupter.interrupt os

  unfoldable pub destroy : M W (Unit {0})
  unfolding Strand.clear Registrar.close Interrupter.close Reactor.close
  destroy = do each_strand Strand.clear; Registrar.close; Interrupter.close os; Reactor.close os

  -- One round of `reactor_process`, whose loop ends when `_run` is false; the code of `wait` is
  -- dropped. The second fuel is that of the deletion queue, whose length it exceeds.
  unfoldable pub reactor_round : ℕ → ℕ → M W (Unit {0})
  unfolding Reactor.wait process_deletion_queue
  reactor_round fuel deletions = do e ← Reactor.wait os fuel; process_deletion_queue deletions
