-- ===== src/Epoll/System/StrandMoves.antt =====
-- Tasks and completions enter and leave the queue of a strand.
use baba_io.Base.{
  ℕ, ◌≡◌, ◌≢◌, ◌∙◌, sym, ap, ◌⊎◌, inl, inr, some, List, [], ◌∷◌, ◌++◌, Table, insert, insert_self,
  insert_ne, arith,
}
use baba_io.Epoll.State.{Descriptor, Strand, Task, completes, posted, ReactorTask}
use baba_io.Epoll.System.Places.{All, All-unit, All-snoc, Apart, Apart-snoc, Differ, At}
use baba_io.Epoll.System.Frames.{ne_or_eq}
use baba_io.Epoll.System.Invariant.{
  Phase, completing, finalising, TaskFits, completion_event, CompletionFits, Queues, Without,
}
use baba_io.Epoll.System.Moves.{holding, some_eq, not_in_tasks, not_in_strand, not_in_deletions}

-- What holds of a strand that is written, and of the others, holds of all.
pub on_insert :
    (Goal : ℕ → Strand → Type 0) (strands : Table Strand) (k : ℕ) (v : Strand)
    → Goal k v
    → ((j : ℕ) (u : Strand) → k ≢ j → strands j ≡ some u → Goal j u)
    → (j : ℕ) (u : Strand) → insert strands k v j ≡ some u
    → Goal j u
on_insert Goal strands k v here there j u h = elim (ne_or_eq k j) [
  | inl same ↦
      rw (← same)
        (rw (← some_eq (sym (insert_self strands k v) ∙ ap (insert strands k v) same ∙ h)) here)
  | inr ne ↦ there j u ne (sym (insert_ne strands k j v ne) ∙ h)
]

module _ (ds : Table Descriptor) (tasks : List ReactorTask) (strands : Table Strand)
    (deletions : List ℕ) (ph : ℕ → Phase) (k : ℕ) (t : Strand) (ht : strands k ≡ some t)
    (v : Queues ds tasks strands deletions ph) where
  -- A task of the user leaves the queue of a strand.
  pub pop-posted :
      (x : Task) (rest : List Task)
      → t.completion_queue.queue ≡ x ∷ rest
      → Queues ds tasks (insert strands k (holding t rest)) deletions ph
  pop-posted x rest q = record {
    tasks_placed = v.tasks_placed;
    tasks_known = v.tasks_known;
    tasks_apart = v.tasks_apart;
    completions_placed =
        on_insert (λ j u. All (At completion_event (CompletionFits j) ph) u.completion_queue.queue)
          strands k (holding t rest) (rw q at (v.completions_placed k t ht)).1
          (λ j u ne h. v.completions_placed j u h);
    completions_apart =
        on_insert (λ j u. Apart completion_event u.completion_queue.queue) strands k
          (holding t rest) (rw q at (v.completions_apart k t ht)).1
          (λ j u ne h. v.completions_apart j u h);
    deletions_placed = v.deletions_placed;
    deletions_apart = v.deletions_apart;
  }

  -- A task of the user enters the queue of a strand.
  pub push-posted :
      (task : ℕ)
      → Queues ds tasks
          (insert strands k (holding t (t.completion_queue.queue ++ posted task ∷ [])))
          deletions
          ph
  push-posted task = record {
    tasks_placed = v.tasks_placed;
    tasks_known = v.tasks_known;
    tasks_apart = v.tasks_apart;
    completions_placed =
        on_insert (λ j u. All (At completion_event (CompletionFits j) ph) u.completion_queue.queue)
          strands k (holding t (t.completion_queue.queue ++ posted task ∷ []))
          (All-snoc (At completion_event (CompletionFits k) ph) t.completion_queue.queue
            (posted task) (v.completions_placed k t ht) tt)
          (λ j u ne h. v.completions_placed j u h);
    completions_apart =
        on_insert (λ j u. Apart completion_event u.completion_queue.queue) strands k
          (holding t (t.completion_queue.queue ++ posted task ∷ []))
          (Apart-snoc completion_event t.completion_queue.queue (posted task)
            (v.completions_apart k t ht) (All-unit t.completion_queue.queue))
          (λ j u ne h. v.completions_apart j u h);
    deletions_placed = v.deletions_placed;
    deletions_apart = v.deletions_apart;
  }

  module _ (p : ℕ) where
    misplaced :
        (ph p ≡ completing k) ⊎ (ph p ≡ finalising k)
        → (j : ℕ) → k ≢ j
        → (z : Task) → CompletionFits j z (ph p)
        → ⊥
    misplaced busy j ne z e = ground arith

    not_a_task :
        (ph p ≡ completing k) ⊎ (ph p ≡ finalising k) → (z : ReactorTask) → TaskFits z (ph p) → ⊥
    not_a_task busy (ReactorTask.read_reacts d e) f = ground arith
    not_a_task busy (ReactorTask.write_reacts d e) f = ground arith
    not_a_task busy (ReactorTask.hands_over g) f = ground arith

    -- A completion leaves the queue of a strand.
    pub pop-completion :
        (x : Task) (rest : List Task)
        → t.completion_queue.queue ≡ x ∷ rest
        → completion_event x ≡ some p
        → (ph p ≡ completing k) ⊎ (ph p ≡ finalising k)
        → Without ds tasks (insert strands k (holding t rest)) deletions p
    pop-completion x rest q key busy = record {
      no_task = not_in_tasks ds tasks strands deletions ph p v (not_a_task busy);
      no_completion =
          on_insert
            (λ j u. All (λ y. Differ (some p) (completion_event y)) u.completion_queue.queue)
            strands k (holding t rest) (rw key at (rw q at (v.completions_apart k t ht)).0)
            (λ j u ne h.
              not_in_strand ds tasks strands deletions ph p v j u h (misplaced busy j ne));
      no_deletion = not_in_deletions ds tasks strands deletions ph p v (λ e. ground arith);
    }

    -- A completion enters the queue of a strand.
    pub push-completion :
        Without ds tasks strands deletions p
        → (ph p ≡ completing k) ⊎ (ph p ≡ finalising k)
        → Queues ds tasks
            (insert strands k (holding t (t.completion_queue.queue ++ completes p ∷ [])))
            deletions
            ph
    push-completion w busy = record {
      tasks_placed = v.tasks_placed;
      tasks_known = v.tasks_known;
      tasks_apart = v.tasks_apart;
      completions_placed =
          on_insert
            (λ j u. All (At completion_event (CompletionFits j) ph) u.completion_queue.queue)
            strands k (holding t (t.completion_queue.queue ++ completes p ∷ []))
            (All-snoc (At completion_event (CompletionFits k) ph) t.completion_queue.queue
              (completes p) (v.completions_placed k t ht) busy)
            (λ j u ne h. v.completions_placed j u h);
      completions_apart =
          on_insert (λ j u. Apart completion_event u.completion_queue.queue) strands k
            (holding t (t.completion_queue.queue ++ completes p ∷ []))
            (Apart-snoc completion_event t.completion_queue.queue (completes p)
              (v.completions_apart k t ht) (w.no_completion k t ht))
            (λ j u ne h. v.completions_apart j u h);
      deletions_placed = v.deletions_placed;
      deletions_apart = v.deletions_apart;
    }
