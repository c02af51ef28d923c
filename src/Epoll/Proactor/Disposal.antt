-- ===== src/Epoll/Proactor/Disposal.antt =====
-- A disposed object on its strand: the final event waits for the active event behind it, and then both
-- are deleted.
use mathlib.Core.List.{append_assoc}
use baba_io.Base.{
  ℕ, suc, ◌+◌, ◌≡◌, ◌≢◌, ap, ◌∙◌, Bool, true, false, none, some, List, [], ◌∷◌, ◌++◌, map, length,
  insert, erase, insert_self, insert_ne, erase-insert,
}
use baba_io.Epoll.State.{
  Service, Event, Descriptor, Task, completes, posted, Call, Complete, finalise,
}
use baba_io.Epoll.Memory.{M, ok, bind, Run, with_register}
use baba_io.Epoll.Deletion.{complete_final}
use baba_io.Epoll.Deletion.Completion.{complete_final_lem}
use baba_io.Epoll.Proactor.{run_complete, run_task, process_completion_queue}
use baba_io.Epoll.Proactor.Callbacks.{owner, call_of, completed, run_complete_lem}
use baba_io.Epoll.Proactor.Queue.{
  running, at, at_strand, process-nil, process-cons, process-posted, enqueue-at, called,
}

-- Code goes on in the state that the code before it leaves.
then_ok :
    {W A : Type 0} {r : Run (Unit {0} × Service W)} {s' : Service W} (n : M W A)
    → r ≡ ok (tt, s')
    → bind r (λ _. n) ≡ n s'
then_ok n h = ap (λ x. bind x (λ _. n)) h

-- An operation of an object that has been destroyed is complete, and both its completion and the
-- final event are queued: what the registrar and the descriptor hold then.
pub record Disposed {W : Type 0} (s : Service W) (evt final_evt strand io_desc : ℕ) (e f : Event)
    (d : Descriptor) (c : Complete) (k : Call) : Type 0 where
  pub event : s.registrar.register evt ≡ some e
  pub final_event : s.registrar.register final_evt ≡ some f
  pub apart : evt ≢ final_evt
  pub event_id : e.id ≡ evt
  pub final_id : f.id ≡ final_evt
  pub final_complete : f.complete ≡ some (finalise evt final_evt)
  pub final_strand : f.strand ≡ some strand
  pub event_complete : e.complete ≡ some c
  pub owned : owner c ≡ evt
  pub owed : call_of c ≡ some k
  pub active : e.has_active_event ≡ true
  pub io : e.descriptor ≡ some io_desc
  pub io_descriptor : s.descriptors io_desc ≡ some d
  pub left_scope : d.in_scope ≡ false

-- The service without the two events, and with the posted tasks called.
abbrev pub deleted : {W : Type 0} → Service W → (evt final_evt : ℕ) → List Call → Service W
deleted s evt final_evt calls =
    record (with_register s (erase (erase s.registrar.register evt) final_evt)) { calls = calls }

module _ {W : Type 0} (s : Service W) (evt final_evt strand io_desc : ℕ) (e f : Event)
    (d : Descriptor) (c : Complete) (k : Call) (a : Bool)
    (v : Disposed s evt final_evt strand io_desc e f d c k) where
  open v use {
    event, final_event, apart, event_id, final_id, final_complete, final_strand, event_complete,
    owned, owed, active, io, io_descriptor, left_scope,
  }

  -- The final event in front of the active one is put back.
  final_waits :
      (q : List Task)
      → run_task (completes final_evt) (at s strand a q)
        ≡ ok (tt, at s strand a (q ++ completes final_evt ∷ []))
  unfolding run_task run_complete complete_final
  final_waits q =
      rw (final_event, final_complete, event, active)
        (enqueue-at s strand a final_evt f q final_event final_strand)

  -- The active event completes, and calls nobody.
  event_completes :
      (q : List Task)
      → run_task (completes evt) (at s strand a q)
        ≡ ok (tt, at (completed s evt e false k) strand a q)
  unfolding run_task
  event_completes q =
      rw (event, event_complete)
        (run_complete_lem (at s strand a q) evt io_desc e d event io io_descriptor c k owned owed
          ∙ ap (λ b. ok (tt, completed (at s strand a q) evt e b k)) left_scope)

  -- With no active event left, the final event deletes both.
  final_deletes :
      (q : List Task)
      → run_task (completes final_evt) (at (completed s evt e false k) strand a q)
        ≡ ok (tt, at (deleted s evt final_evt s.calls) strand a q)
  unfolding run_task run_complete
  final_deletes q =
      rw (kept, final_complete)
        (complete_final_lem (at s2 strand a q) evt final_evt strand e2 f (running a q)
            (insert_self s.registrar.register evt e2) kept event_id final_id apart final_strand
            (at_strand s2 strand a q)
          ∙ ap (λ r. ok (tt, at (with_register s (erase r final_evt)) strand a q))
              (erase-insert s.registrar.register evt e2))
    where
      e2 : Event
      e2 = record e { complete = none; has_active_event = false }

      s2 : Service W
      s2 = completed s evt e false k

      kept : insert s.registrar.register evt e2 final_evt ≡ some f
      kept = insert_ne s.registrar.register evt final_evt e2 apart ∙ final_event

Disposed-calls :
    {W : Type 0} (s : Service W) (evt final_evt strand io_desc : ℕ) (e f : Event) (d : Descriptor)
    (c : Complete) (k : Call) (calls : List Call)
    → Disposed s evt final_evt strand io_desc e f d c k
    → Disposed (record s { calls = calls }) evt final_evt strand io_desc e f d c k
Disposed-calls s evt final_evt strand io_desc e f d c k calls v = record {
  event = v.event;
  final_event = v.final_event;
  apart = v.apart;
  event_id = v.event_id;
  final_id = v.final_id;
  final_complete = v.final_complete;
  final_strand = v.final_strand;
  event_complete = v.event_complete;
  owned = v.owned;
  owed = v.owed;
  active = v.active;
  io = v.io;
  io_descriptor = v.io_descriptor;
  left_scope = v.left_scope;
}

-- The queue of a disposed object: its final event came before its active one.
abbrev pub overtaken : (evt final_evt : ℕ) → (xs ys : List ℕ) → List Task
overtaken evt final_evt xs ys =
    completes final_evt ∷ (map posted xs ++ completes evt ∷ map posted ys)

-- Where the final event of a destroyed object has overtaken the completion of its active event in the
-- queue of the strand, with tasks of the user before and behind the completion, the strand runs its
-- queue empty without a fault: all tasks are called, in order, the callback of the operation is not,
-- and exactly the two events are deleted.
pub disposal-deletes :
    {W : Type 0} (s : Service W) (evt final_evt strand io_desc : ℕ) (e f : Event) (d : Descriptor)
    (c : Complete) (k : Call) (a : Bool) (xs ys : List ℕ) (fuel : ℕ)
    → Disposed s evt final_evt strand io_desc e f d c k
    → process_completion_queue
        (suc (length xs + suc (length ys + suc (suc fuel))))
        strand
        (at s strand a (overtaken evt final_evt xs ys))
      ≡ ok (tt, at (deleted s evt final_evt (called ys (called xs s.calls))) strand a [])
disposal-deletes {W} s evt final_evt strand io_desc e f d c k a xs ys fuel v =
    process-cons s strand a (length xs + suc n1) (completes final_evt) _
    ∙ then_ok (process_completion_queue (length xs + suc n1) strand)
        (final_waits s evt final_evt strand io_desc e f d c k a v _)
    ∙ ap (λ q. process_completion_queue (length xs + suc n1) strand (at s strand a q))
        (append_assoc (map posted xs) (completes evt ∷ map posted ys) (completes final_evt ∷ []))
    ∙ process-posted xs n1 (completes evt ∷ (map posted ys ++ completes final_evt ∷ [])) s strand a
    ∙ process-cons s1 strand a n1 (completes evt) _
    ∙ then_ok (process_completion_queue n1 strand)
        (event_completes s1 evt final_evt strand io_desc e f d c k a v1 _)
    ∙ process-posted ys (suc fuel) (completes final_evt ∷ []) (completed s1 evt e false k) strand a
    ∙ process-cons (completed s3 evt e false k) strand a (suc fuel) (completes final_evt) []
    ∙ then_ok (process_completion_queue (suc fuel) strand)
        (final_deletes s3 evt final_evt strand io_desc e f d c k a v3 [])
    ∙ process-nil (deleted s3 evt final_evt s3.calls) strand a fuel
  where
    n1 : ℕ
    n1 = length ys + suc (suc fuel)

    s1 : Service W
    s1 = record s { calls = called xs s.calls }

    s3 : Service W
    s3 = record s { calls = called ys (called xs s.calls) }

    v1 : Disposed s1 evt final_evt strand io_desc e f d c k
    v1 = Disposed-calls s evt final_evt strand io_desc e f d c k _ v

    v3 : Disposed s3 evt final_evt strand io_desc e f d c k
    v3 = Disposed-calls s evt final_evt strand io_desc e f d c k _ v
