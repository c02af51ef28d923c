-- ===== src/Epoll/System/Moves.antt =====
-- An event leaves a queue, changes its phase, and enters another queue.
use baba_io.Base.{ℕ, ◌≡◌, ◌≢◌, sym, ◌⊎◌, some, List, [], ◌∷◌, ◌++◌, Table, arith}
use baba_io.Epoll.State.{Descriptor, Strand, Task, ReactorTask}
use baba_io.Epoll.System.Places.{
  All, All-snoc, Apart-snoc, Differ, At, set, placed_apart, placed_elsewhere,
}
use baba_io.Epoll.System.Invariant.{
  Phase, resting, reacting, deleting, handing, task_event, TaskFits, completion_event,
  CompletionFits, DeletionFits, Queues, Without,
}

-- A strand with another list in its queue.
abbrev pub holding : Strand → List Task → Strand
holding t q = record t { completion_queue = record (t.completion_queue) { queue = q } }

pub some_eq : {A : Type 0} {a b : A} → some a ≡ some b → a ≡ b
some_eq h = cc

module _ (ds : Table Descriptor) (tasks : List ReactorTask) (strands : Table Strand)
    (deletions : List ℕ) (ph : ℕ → Phase) (p : ℕ) where
  -- The phase of an event that no queue refers to may change.
  pub Queues-set :
      (n : Phase)
      → Queues ds tasks strands deletions ph
      → Without ds tasks strands deletions p
      → Queues ds tasks strands deletions (set ph p n)
  Queues-set n v w = record {
    tasks_placed = placed_apart (task_event ds) TaskFits ph p n tasks w.no_task v.tasks_placed;
    tasks_known = v.tasks_known;
    tasks_apart = v.tasks_apart;
    completions_placed = λ k t h.
        placed_apart completion_event (CompletionFits k) ph p n t.completion_queue.queue
          (w.no_completion k t h) (v.completions_placed k t h);
    completions_apart = v.completions_apart;
    deletions_placed =
        placed_apart some DeletionFits ph p n deletions w.no_deletion v.deletions_placed;
    deletions_apart = v.deletions_apart;
  }

  module _ (v : Queues ds tasks strands deletions ph) where
    pub not_in_tasks :
        ((z : ReactorTask) → TaskFits z (ph p) → ⊥)
        → All (λ x. Differ (some p) (task_event ds x)) tasks
    not_in_tasks misfits =
        placed_elsewhere (task_event ds) TaskFits ph p resting tasks misfits v.tasks_placed

    pub not_in_strand :
        (k : ℕ) (t : Strand)
        → strands k ≡ some t
        → ((z : Task) → CompletionFits k z (ph p) → ⊥)
        → All (λ x. Differ (some p) (completion_event x)) t.completion_queue.queue
    not_in_strand k t h misfits =
        placed_elsewhere completion_event (CompletionFits k) ph p resting t.completion_queue.queue
          misfits (v.completions_placed k t h)

    pub not_in_deletions : (deleting ≢ ph p) → All (λ x. Differ (some p) (some x)) deletions
    not_in_deletions misfits =
        placed_elsewhere some DeletionFits ph p resting deletions (λ z e. misfits (sym e))
          v.deletions_placed

module _ (ds : Table Descriptor) (strands : Table Strand) (deletions : List ℕ) (ph : ℕ → Phase)
    (p : ℕ) where
  pub pop-task :
      (x : ReactorTask) (tasks : List ReactorTask)
      → Queues ds (x ∷ tasks) strands deletions ph
      → task_event ds x ≡ some p
      → (ph p ≡ reacting) ⊎ (ph p ≡ handing)
      → Queues ds tasks strands deletions ph × Without ds tasks strands deletions p
  pop-task x tasks v key busy = (
    record {
      tasks_placed = v.tasks_placed.1;
      tasks_known = v.tasks_known.1;
      tasks_apart = v.tasks_apart.1;
      completions_placed = v.completions_placed;
      completions_apart = v.completions_apart;
      deletions_placed = v.deletions_placed;
      deletions_apart = v.deletions_apart;
    },
    record {
      no_task = rw key at v.tasks_apart.0;
      no_completion = λ k t h.
          not_in_strand ds (x ∷ tasks) strands deletions ph p v k t h (λ z e. ground arith);
      no_deletion = not_in_deletions ds (x ∷ tasks) strands deletions ph p v (λ e. ground arith);
    },
  )

  pub push-task :
      (x : ReactorTask) (tasks : List ReactorTask)
      → Queues ds tasks strands deletions ph
      → Without ds tasks strands deletions p
      → task_event ds x ≡ some p
      → TaskFits x (ph p)
      → Queues ds (tasks ++ x ∷ []) strands deletions ph
  push-task x tasks v w key fits = record {
    tasks_placed = All-snoc (At (task_event ds) TaskFits ph) tasks x v.tasks_placed (rw key fits);
    tasks_known =
        All-snoc (λ task. (q : ℕ) × (task_event ds task ≡ some q)) tasks x v.tasks_known (p, key);
    tasks_apart = Apart-snoc (task_event ds) tasks x v.tasks_apart (rw key w.no_task);
    completions_placed = v.completions_placed;
    completions_apart = v.completions_apart;
    deletions_placed = v.deletions_placed;
    deletions_apart = v.deletions_apart;
  }

module _ (ds : Table Descriptor) (tasks : List ReactorTask) (strands : Table Strand)
    (ph : ℕ → Phase) (p : ℕ) where
  pub pop-deletion :
      (deletions : List ℕ)
      → Queues ds tasks strands (p ∷ deletions) ph
      → Queues ds tasks strands deletions ph × Without ds tasks strands deletions p
  pop-deletion deletions v = (
    record {
      tasks_placed = v.tasks_placed;
      tasks_known = v.tasks_known;
      tasks_apart = v.tasks_apart;
      completions_placed = v.completions_placed;
      completions_apart = v.completions_apart;
      deletions_placed = v.deletions_placed.1;
      deletions_apart = v.deletions_apart.1;
    },
    record {
      no_task =
          not_in_tasks ds tasks strands (p ∷ deletions) ph p v
            (λ z e. unfit z v.deletions_placed.0 e);
      no_completion = λ k t h.
          not_in_strand ds tasks strands (p ∷ deletions) ph p v k t h
            (λ z e. ground (arith, v.deletions_placed.0));
      no_deletion = v.deletions_apart.0;
    },
  )
    where
      unfit : (z : ReactorTask) → ph p ≡ deleting → TaskFits z (ph p) → ⊥
      unfit (ReactorTask.read_reacts d e) h f = ground arith
      unfit (ReactorTask.write_reacts d e) h f = ground arith
      unfit (ReactorTask.hands_over g) h f = ground arith
