-- ===== src/Epoll/System/Turns.antt =====
-- The threads of a running service, one round at a time: a thread of `reactor_task_process`, the
-- thread of a strand, and the thread of the reactor as it hands over a final event. The bodies are
-- those of the loops in Epoll/Proactor and Epoll/Service, each up to its next round.
use baba_io.Base.{if◌then◌else◌, ℕ, none, some, List, [], ◌∷◌}
use baba_io.Library.BlockingQueue
use baba_io.Library.LockableQueue
use baba_io.Os.Kernel.{Kernel}
use baba_io.Epoll.State.{hands_over}
use baba_io.Epoll.Strand
use baba_io.Epoll.Memory.{M, ok, ◌>>◌, pure, store_strand}
use baba_io.Epoll.Proactor.{run_reactor_task, run_task}
use baba_io.Epoll.Reactor

pub data Turn : Type 0 where
  reacts deletes : Turn
  completes : (strand : ℕ) → Turn
  -- A user posts a task to a strand.
  posts : (strand task : ℕ) → Turn

module _ {W : Type 0} (os : Kernel W) where
  unfoldable pub reactor_turn : M W (Unit {0})
  unfolding run_reactor_task BlockingQueue.dequeue
  reactor_turn s =
      let (task, queue) = BlockingQueue.dequeue s.reactor_tasks in
      let t = record s { reactor_tasks = queue } in
      elim task [
        | none ↦ ok (tt, t)
        | some x ↦ if s.run then run_reactor_task os x t else ok (tt, t)
      ]

unfoldable pub strand_turn : {W : Type 0} → (strand : ℕ) → M W (Unit {0})
unfolding run_task BlockingQueue.dequeue
strand_turn strand s = elim (s.strands strand) [
  | none ↦ ok (tt, s)
  | some t ↦
      let (task, queue) = BlockingQueue.dequeue t.completion_queue in
      (do
        store_strand strand (record t { completion_queue = queue })
        elim task [ none ↦ pure tt | some x ↦ if t.run then run_task x else pure tt ])
        s
]

unfoldable pub deletion_turn : {W : Type 0} → M W (Unit {0})
unfolding Reactor.enqueue_reactor_task LockableQueue.dequeue
deletion_turn s =
    if s.run
    then elim (LockableQueue.dequeue s.deletions) [
      | none ↦ ok (tt, s)
      | some (evt, queue) ↦
          Reactor.enqueue_reactor_task (hands_over evt) (record s { deletions = queue })
    ]
    else ok (tt, s)

-- A turn of a strand that is not there is no turn: it has no thread, and nobody has it to post to.
unfoldable pub posting_turn : {W : Type 0} → (strand task : ℕ) → M W (Unit {0})
unfolding Strand.post
posting_turn strand task s = elim (s.strands strand) [
  | none ↦ ok (tt, s)
  | some t ↦ Strand.post strand task s
]

module _ {W : Type 0} (os : Kernel W) where
  unfoldable pub take_turn : Turn → M W (Unit {0})
  unfolding reactor_turn strand_turn deletion_turn posting_turn
  take_turn reacts = reactor_turn os
  take_turn deletes = deletion_turn
  take_turn (completes strand) = strand_turn strand
  take_turn (posts strand task) = posting_turn strand task

  -- The turns of a schedule one after the other.
  unfoldable pub run_turns : List Turn → M W (Unit {0})
  unfolding take_turn
  run_turns [] = pure tt
  run_turns (turn ∷ turns) = take_turn turn >> run_turns turns
