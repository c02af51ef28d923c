-- ===== src/Epoll/Deletion/Completion.antt =====
-- What the final event does when its strand runs it.
use baba_io.Base.{
  ℕ, ◌≡◌, ◌≢◌, some, arith, insert, erase, if◌then◌else◌, Bool-cases, inl, inr, ◌∷◌, [], ◌++◌,
}
use baba_io.Epoll.State.{Service, Event, Strand, Task, completes}
use baba_io.Epoll.Memory.{ok, with_register}
use baba_io.Epoll.Registrar.Ids.{give_at}
use baba_io.Epoll.Strand
use baba_io.Epoll.Deletion.{complete_final}

-- The state with a task at the end of the queue of a strand.
abbrev pub enqueued : {W : Type 0} → Service W → (strand : ℕ) → Strand → Task → Service W
enqueued s strand t task = record s {
  strands = insert s.strands strand (record t {
    completion_queue = record (t.completion_queue) {
      queue = t.completion_queue.queue ++ task ∷ [];
    };
  });
}

pub enqueue_lem :
    {W : Type 0} (s : Service W) (evt strand : ℕ) (e : Event) (t : Strand)
    → s.registrar.register evt ≡ some e
    → e.strand ≡ some strand
    → s.strands strand ≡ some t
    → Strand.enqueue evt s ≡ ok (tt, enqueued s strand t (completes evt))
unfolding Strand.enqueue
enqueue_lem s evt strand e t he hs ht = rw (he, hs, ht)

module _ {W : Type 0} (s : Service W) (evt final_evt strand : ℕ) (e f : Event) (t : Strand)
    (he : s.registrar.register evt ≡ some e) (hf : s.registrar.register final_evt ≡ some f)
    (ie : e.id ≡ evt) (jf : f.id ≡ final_evt) (apart : evt ≢ final_evt)
    (hs : f.strand ≡ some strand) (ht : s.strands strand ≡ some t) where
  kept : erase s.registrar.register evt final_evt ≡ some f
  kept = ground arith

  -- While the event is active, its final event goes to the back of the queue of its strand, and
  -- nothing else changes; otherwise both events are erased, and nothing else changes.
  pub complete_final_lem : complete_final evt final_evt s ≡ (
      if e.has_active_event
      then ok (tt, enqueued s strand t (completes final_evt))
      else ok (tt, with_register s (erase (erase s.registrar.register evt) final_evt)))
  unfolding complete_final
  complete_final_lem = elim (Bool-cases e.has_active_event) [
    | inl active ↦ rw (he, active) (enqueue_lem s final_evt strand f t hf hs ht)
    | inr idle ↦ rw (
      he,
      idle,
      he,
      ie,
      give_at (with_register s (erase s.registrar.register evt)) final_evt f kept,
      jf,
    )
  ]
