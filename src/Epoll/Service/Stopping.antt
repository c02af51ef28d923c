-- ===== src/Epoll/Service/Stopping.antt =====
-- What `stop` leaves behind: no loop goes on, and no queue lets its threads sleep.
use baba_io.Base.{ℕ, ◌≡◌, ◌⊎◌, inl, inr, true, false, Bool-cases, some, arith}
use baba_io.Os.Kernel.{Kernel}
use baba_io.Epoll.State.{Service, Strand}
use baba_io.Epoll.Memory.{fault, aborted, Returns}
use baba_io.Epoll.Service.{stop}
use baba_io.Epoll.Interrupter.{write_fails, written}

-- The flags of all loops are down, and all queues are inactive.
pub record IsStopped {W : Type 0} (s : Service W) : Type 0 where
  pub service : s.run ≡ false
  pub reactor : s.reactor.run ≡ false
  pub tasks : s.reactor_tasks.active ≡ false
  pub strand_run : (k : ℕ) (t : Strand) → s.strands k ≡ some t → t.run ≡ false
  pub strand_queue : (k : ℕ) (t : Strand) → s.strands k ≡ some t → t.completion_queue.active ≡ false

module _ {W : Type 0} (os : Kernel W) (s : Service W) where
  -- Where the write to the self pipe fails, other than on a full pipe, `stop` aborts. Otherwise it returns
  -- after that write: every loop and queue of the service and of its strands is stopped, and nothing is
  -- dropped that is queued for the reactor or to be deleted.
  pub stop-IsStopped :
      ((write_fails os s ≡ true) × (stop os s ≡ fault aborted))
      ⊎ ((write_fails os s ≡ false)
          × Returns
              (λ _ s'.
                IsStopped s'
                × (s'.reactor_tasks.queue ≡ s.reactor_tasks.queue)
                × (s'.deletions ≡ s.deletions)
                × (s'.registrar ≡ s.registrar)
                × (s'.world ≡ written os s))
              (stop os s))
  unfolding stop
  stop-IsStopped = elim (Bool-cases (write_fails os s)) [
    | inl bad ↦ inl (bad, ground arith)
    | inr good ↦ inr (good, ground arith)
  ]
