-- ===== src/Epoll/Proactor.antt =====
-- Running what the queues hold: the closures of the events by their names, and the loops of
-- epoll_completion_strand.cpp and epoll_service.cpp over one queue.
pub mod Queue
pub mod Reactions
pub mod Accepting
pub mod Disposal
pub mod Callbacks
use baba_io.Base.{ℕ, zero, suc, Bool, true, false, Option, none, some, if◌then◌else◌, insert}
use baba_io.Library.BlockingQueue
use baba_io.Os.Codes.{ErrorCode}
use baba_io.Os.Kernel.{Kernel}
use baba_io.Os.FileImpl
use baba_io.Os.SocketImpl
use baba_io.Epoll.State.{
  Service, Event, Descriptor, Strand, React, recv_react, send_react, timer_react, connect_react,
  accept_react, Complete, recved, sended, expired, connected, accepted, finalise, Task, completes,
  posted, ReactorTask, read_reacts, write_reacts, hands_over, task_call,
}
use baba_io.Epoll.Memory.{
  M, ok, fault, out_of_fuel, null_pointer, bad_function_call, pure, fail, ◌>>=◌, ◌>>◌, require,
  call, update, load_event, load_descriptor, load_strand, store_strand,
}
use baba_io.Epoll.Strand
use baba_io.Epoll.Deletion
use baba_io.Epoll.Events.Recv
use baba_io.Epoll.Events.Send
use baba_io.Epoll.Events.Timer
use baba_io.Epoll.Events.Connect
use baba_io.Epoll.Events.Accept
use baba_io.Epoll.Io.Acceptor

unfoldable pub run_complete : {W : Type 0} → Complete → M W (Unit {0})
unfolding Recv.complete Send.complete Timer.complete Connect.complete Accept.complete
    Deletion.complete_final
run_complete (recved evt e cb bytes) = Recv.complete evt e cb bytes
run_complete (sended evt e cb bytes) = Send.complete evt e cb bytes
run_complete (expired evt e cb) = Timer.complete evt e cb
run_complete (connected evt e cb) = Connect.complete evt e cb
run_complete (accepted evt e cb) = Accept.complete evt e cb
run_complete (finalise evt final_evt) = Deletion.complete_final evt final_evt

-- `evt->complete()`, or a task of the user.
unfoldable pub run_task : {W : Type 0} → Task → M W (Unit {0})
unfolding run_complete
run_task (completes evt) = do
  e ← load_event evt
  c ← require bad_function_call e.complete
  run_complete c
run_task (posted task) = call (task_call task)

-- `completion_strand_impl::process_completion_queue`: a task that has been dequeued when the strand
-- is stopped is dropped.
unfoldable pub process_completion_queue : {W : Type 0} → ℕ → (strand : ℕ) → M W (Unit {0})
unfolding run_task BlockingQueue.dequeue
process_completion_queue zero strand = fail out_of_fuel
process_completion_queue (suc fuel) strand =
    let rest = process_completion_queue fuel strand in
    do
      t ← load_strand strand
      let (task, queue) = BlockingQueue.dequeue t.completion_queue
      store_strand strand (record t { completion_queue = queue })
      elim task [ none ↦ pure tt | some k ↦ if t.run then (run_task k >> rest) else pure tt ]

module _ {W : Type 0} (os : Kernel W) where
  -- The closures that the objects give to their events as `fin_…` stand in the arguments here.
  unfoldable pub run_react : React → ErrorCode → M W (Unit {0})
  unfolding Recv.react Send.react Timer.react Connect.react Accept.react Acceptor.fin_accept
  run_react (recv_react evt buffer size cb) e = Recv.react (SocketImpl.recv os) evt buffer size cb e
  run_react (send_react evt buffer size cb) e = Send.react (SocketImpl.send os) evt buffer size cb e
  run_react (timer_react evt cb) e = Timer.react (FileImpl.read os) evt cb e
  run_react (connect_react evt cb code) e = Connect.react evt cb code e
  run_react (accept_react evt accepting cb) e =
      Accept.react (Acceptor.fin_accept os) evt accepting cb e

  -- `event->react(e)` of a pointer that a descriptor holds.
  unfoldable pub react_event : Option ℕ → ErrorCode → M W (Unit {0})
  unfolding run_react
  react_event p e = do
    evt ← require null_pointer p
    v ← load_event evt
    r ← require bad_function_call v.react
    run_react r e

  unfoldable pub run_reactor_task : ReactorTask → M W (Unit {0})
  unfolding react_event Strand.enqueue
  run_reactor_task (read_reacts io_desc e) = do
    d ← load_descriptor io_desc
    react_event d.read_event e
  run_reactor_task (write_reacts io_desc e) = do
    d ← load_descriptor io_desc
    react_event d.write_event e
  run_reactor_task (hands_over evt) = Strand.enqueue evt

  -- `epoll_service::process_reactor_queue`, likewise.
  unfoldable pub process_reactor_queue : ℕ → M W (Unit {0})
  unfolding run_reactor_task BlockingQueue.dequeue
  process_reactor_queue zero s = fault out_of_fuel
  process_reactor_queue (suc fuel) s =
      let rest = process_reactor_queue fuel in
      let (task, queue) = BlockingQueue.dequeue s.reactor_tasks in
      let t = record s { reactor_tasks = queue } in
      elim task [
        | none ↦ ok (tt, t)
        | some k ↦ if s.run then (run_reactor_task k >> rest) t else ok (tt, t)
      ]
