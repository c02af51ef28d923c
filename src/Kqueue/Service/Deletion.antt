-- ===== src/Kqueue/Service/Deletion.antt =====
-- How an event ends: `~kqueue_recv` and its like, the final event, and the pointers of both to the
-- descriptor.
use baba_io.Base.{
  ℕ, suc, ◌+◌, ◌%◌, ◌^◌, ◌≡◌, ◌≢◌, ◌∙◌, refl, ap, none, some, List, [], ◌∷◌, ◌++◌, insert, erase,
  ◌==ℤ◌, false, length, suc-eq-zero, key_same, key_other, insert-insert, minus_one,
}
use baba_io.Library.SafeQueue
use baba_io.Library.BlockingQueue
use baba_io.Os.Codes.{invalid_handle}
use baba_io.Epoll.Memory.{ok}
use baba_io.Kqueue.State.{
  Service, Event, Descriptor, Kqueue, Operations, final_initiates, final_completes,
}
use baba_io.Os.FileImpl
use baba_io.Kqueue.Memory.{
  bind, take, give, release, close_descriptor, complete_with, enqueue_for_completion, fresh_event,
}
use baba_io.Kqueue.Events
use baba_io.Kqueue.Interrupter
use baba_io.Kqueue.Reactor
use baba_io.Kqueue.Service.{process_initiation_queue, process_completion_queue, complete}

-- The final event of an event, and what it has once it is initiated.
abbrev pub final : (p k : ℕ) → Event
final p k = record (fresh_event) { initiate = some (final_initiates p k); id = k }

abbrev pub final_done : (p k : ℕ) → Event
final_done p k = record (final p k) { complete = some (final_completes p k) }

module _ {W : Type 0} (kq : Kqueue W) (s : Service W) (p k : ℕ) where
  -- The state after a destructor whose write to the self pipe leaves `w`.
  abbrev pub dropped : W → Service W
  dropped w = record s {
    register = insert s.register k (final p k);
    id_generator = (k + 1) % 2 ^ 64;
    initiation_queue = record { queue = s.initiation_queue.queue ++ k ∷ [] };
    world = w;
  }

  pub destroy_lem :
      s.id_generator ≡ k
      → s.register k ≡ none
      → (v : Event) → s.register p ≡ some v
      → k ≢ p
      → ((kq.os.write s.interrupter.write_end 0 1 s.world).0.value ==ℤ minus_one) ≡ false
      → Events.destroy kq p s ≡ ok (tt, dropped (kq.os.write s.interrupter.write_end 0 1 s.world).1)
  unfolding Events.destroy take Events.enqueue_for_initiation Interrupter.interrupt
      SafeQueue.enqueue
  destroy_lem hk free v hp other written =
      simp (hk, free, key_same k, key_other k p other, hp)
        (simp written (
          ap
            (λ t. ok (
              tt,
              record (dropped (kq.os.write s.interrupter.write_end 0 1 s.world).1) { register = t },
            ))
            (insert-insert s.register k _ _)))

module _ {W : Type 0} (s : Service W) (p k : ℕ) where
  abbrev pub initiated : Service W
  initiated = record s {
    register = insert s.register k (final_done p k);
    initiation_queue = record { queue = [] };
    completion_queue = record (s.completion_queue) { queue = s.completion_queue.queue ++ k ∷ [] };
  }

module _ {W : Type 0} (kq : Kqueue W) (ops : Operations W) (s : Service W) (p k : ℕ) where
  pub initiates_final :
      s.initiation_queue.queue ≡ k ∷ []
      → s.register k ≡ some (final p k)
      → (v : Event) → s.register p ≡ some v
      → k ≢ p
      → (n : ℕ) → process_initiation_queue kq ops (suc (suc n)) s ≡ ok (tt, initiated s p k)
  unfolding process_initiation_queue SafeQueue.size SafeQueue.dequeue Reactor.initiate
      Reactor.run_initiate Events.initiate_final complete_with enqueue_for_completion
      BlockingQueue.enqueue
  initiates_final hq hk v hp other n = simp (hq, hk, key_other k p other, hp) refl

-- A completion that is taken from the queue runs, and then the others.
module _ {W : Type 0} (s : Service W) (rest : List ℕ) where
  abbrev pub popped : Service W
  popped = record s { completion_queue = record (s.completion_queue) { queue = rest } }

module _ {W : Type 0} (kq : Kqueue W) (ops : Operations W) (s : Service W) (k : ℕ)
    (rest : List ℕ) where
  head :
      s.completion_queue.queue ≡ k ∷ rest
      → BlockingQueue.dequeue s.completion_queue
        ≡ (some k, record (s.completion_queue) { queue = rest })
  unfolding BlockingQueue.dequeue
  head h = rw h refl

  pub completes_first :
      s.completion_queue.queue ≡ k ∷ rest
      → (n : ℕ)
      → process_completion_queue kq ops (suc n) s
        ≡ bind (complete kq ops k (popped s rest)) (λ _. process_completion_queue kq ops n)
  unfolding process_completion_queue BlockingQueue.size
  completes_first hq n = simp (hq, head hq) (simp (suc-eq-zero (length rest)) refl)

-- What the service keeps of two events that it has deleted.
abbrev pub without : {W : Type 0} → Service W → (p k : ℕ) → List ℕ → Service W
without s p k rest = record s {
  register = erase (erase s.register p) k;
  completion_queue = record (s.completion_queue) { queue = rest };
}

module _ {W : Type 0} (kq : Kqueue W) (s : Service W) (p k io_desc : ℕ) (d : Descriptor) where
  abbrev pub closed : List ℕ → Service W
  closed rest = record (without s p k rest) {
    descriptors = erase s.descriptors io_desc;
    world = FileImpl.close kq.os d.fd s.world;
  }

module _ {W : Type 0} (kq : Kqueue W) (ops : Operations W) (s : Service W) (p k io_desc : ℕ)
    (v : Event) (d : Descriptor) (rest : List ℕ) where
  pub completes_final :
      s.completion_queue.queue ≡ k ∷ rest
      → p ≢ k
      → s.register k ≡ some (final_done p k)
      → s.register p ≡ some v
      → v.id ≡ p
      → v.descriptor ≡ some io_desc
      → s.descriptors io_desc ≡ some d
      → d.refs ≡ 1
      → (d.fd ==ℤ invalid_handle) ≡ false
      → (n : ℕ)
      → process_completion_queue kq ops (suc n) s
        ≡ process_completion_queue kq ops n (closed kq s p k io_desc d rest)
  unfolding complete Reactor.run_complete Events.complete_final give release close_descriptor
  completes_final hq other hk hp hi hd hs last valid n =
      completes_first kq ops s k rest hq n
      ∙ simp (hk, hp) (simp (hd, hi, hs) (simp (last, valid, key_other p k other, hk) refl))

module _ {W : Type 0} (kq : Kqueue W) (ops : Operations W) (s : Service W) where
  pub completes_none :
      s.completion_queue.queue ≡ []
      → (n : ℕ) → process_completion_queue kq ops (suc n) s ≡ ok (tt, s)
  unfolding process_completion_queue BlockingQueue.size
  completes_none h n = simp h refl
