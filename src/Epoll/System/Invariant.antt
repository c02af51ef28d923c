-- ===== src/Epoll/System/Invariant.antt =====
-- Where the events of a service are, and what they hold there. The phases are not in the code: they
-- tell at each moment which queue refers to an event.
use baba_io.Base.{ℕ, ◌≡◌, ◌⊎◌, true, none, Option, some, Table, List}
use baba_io.Epoll.State.{
  Service, Event, Descriptor, Strand, React, Complete, finalise, Task, completes, posted, Call,
  ReactorTask, read_reacts, write_reacts, hands_over,
}
use baba_io.Epoll.Proactor.Callbacks.{owner, call_of}
use baba_io.Epoll.Proactor.Reactions.{reacts_on}
use baba_io.Epoll.System.Places.{All, Apart, At, Differ}

-- An event that no queue refers to; the event of an operation in the queue of reactor tasks and in
-- the queue of a strand; and a final event in the deletion queue and then in the same two.
pub data Phase : Type 0 where
  resting reacting deleting handing : Phase
  completing finalising : (strand : ℕ) → Phase

abbrev pub side : (Descriptor → Option ℕ) → Option Descriptor → Option ℕ
side f none = none
side f (some d) = f d

-- The event that a reactor task is about.
abbrev pub task_event : Table Descriptor → ReactorTask → Option ℕ
task_event ds (read_reacts io_desc e) = side (λ d. d.read_event) (ds io_desc)
task_event ds (write_reacts io_desc e) = side (λ d. d.write_event) (ds io_desc)
task_event ds (hands_over evt) = some evt

abbrev pub TaskFits : ReactorTask → Phase → Type 0
TaskFits (read_reacts io_desc e) x = x ≡ reacting
TaskFits (write_reacts io_desc e) x = x ≡ reacting
TaskFits (hands_over evt) x = x ≡ handing

abbrev pub completion_event : Task → Option ℕ
completion_event (completes evt) = some evt
completion_event (posted task) = none

abbrev pub CompletionFits : (strand : ℕ) → Task → Phase → Type 0
CompletionFits k task x = (x ≡ completing k) ⊎ (x ≡ finalising k)

abbrev pub DeletionFits : ℕ → Phase → Type 0
DeletionFits evt x = x ≡ deleting

abbrev pub HasStrand : {W : Type 0} → Service W → ℕ → Type 0
HasStrand s k = (t : Strand) × (s.strands k ≡ some t)

-- An operation whose reaction is queued: the reaction is there, and so is all that it goes through.
pub record Reacting {W : Type 0} (s : Service W) (p : ℕ) : Type 0 where
  pub event : Event
  pub found : s.registrar.register p ≡ some event
  pub reaction : React
  pub reacts : event.react ≡ some reaction
  pub mine : reacts_on reaction ≡ some p
  pub io_desc : ℕ
  pub io : event.descriptor ≡ some io_desc
  pub descriptor : Descriptor
  pub open_io : s.descriptors io_desc ≡ some descriptor
  pub strand : ℕ
  pub on : event.strand ≡ some strand
  pub queue : HasStrand s strand
  pub active : event.has_active_event ≡ true

-- An operation whose completion is queued.
pub record Completing {W : Type 0} (s : Service W) (p : ℕ) : Type 0 where
  pub event : Event
  pub found : s.registrar.register p ≡ some event
  pub completion : Complete
  pub holds : event.complete ≡ some completion
  pub mine : owner completion ≡ p
  pub call : Call
  pub owed : call_of completion ≡ some call
  pub io_desc : ℕ
  pub io : event.descriptor ≡ some io_desc
  pub descriptor : Descriptor
  pub open_io : s.descriptors io_desc ≡ some descriptor
  pub active : event.has_active_event ≡ true

-- A final event and the event that it is to delete. `doom` names the final event of an event.
pub record Final {W : Type 0} (s : Service W) (doom : ℕ → Option ℕ) (p : ℕ) : Type 0 where
  pub event : Event
  pub found : s.registrar.register p ≡ some event
  pub id : event.id ≡ p
  pub victim : ℕ
  pub closure : event.complete ≡ some (finalise victim p)
  pub strand : ℕ
  pub on : event.strand ≡ some strand
  pub queue : HasStrand s strand
  pub target : Event
  pub target_found : s.registrar.register victim ≡ some target
  pub target_id : target.id ≡ victim
  pub dooms : doom victim ≡ some p
  pub free : doom p ≡ none

abbrev pub EventOk : {W : Type 0} → Service W → (ℕ → Option ℕ) → ℕ → Phase → Type 0
EventOk s doom p resting = Unit
EventOk s doom p reacting = Reacting s p
EventOk s doom p (completing k) = Completing s p
EventOk s doom p deleting = Final s doom p
EventOk s doom p handing = Final s doom p
EventOk s doom p (finalising k) = (f : Final s doom p) × (f.strand ≡ k)

-- What the queues refer to is in its phase, and nothing is referred to twice.
pub record Queues (ds : Table Descriptor) (tasks : List ReactorTask) (strands : Table Strand)
    (deletions : List ℕ) (ph : ℕ → Phase) : Type 0 where
  pub tasks_placed : All (At (task_event ds) TaskFits ph) tasks
  pub tasks_known : All (λ task. (p : ℕ) × (task_event ds task ≡ some p)) tasks
  pub tasks_apart : Apart (task_event ds) tasks
  pub completions_placed :
      (k : ℕ) (t : Strand)
      → strands k ≡ some t
      → All (At completion_event (CompletionFits k) ph) t.completion_queue.queue
  pub completions_apart :
      (k : ℕ) (t : Strand) → strands k ≡ some t → Apart completion_event t.completion_queue.queue
  pub deletions_placed : All (At some DeletionFits ph) deletions
  pub deletions_apart : Apart some deletions

-- No queue refers to an event.
pub record Without (ds : Table Descriptor) (tasks : List ReactorTask) (strands : Table Strand)
    (deletions : List ℕ) (p : ℕ) : Type 0 where
  pub no_task : All (λ x. Differ (some p) (task_event ds x)) tasks
  pub no_completion :
      (k : ℕ) (t : Strand)
      → strands k ≡ some t
      → All (λ x. Differ (some p) (completion_event x)) t.completion_queue.queue
  pub no_deletion : All (λ x. Differ (some p) (some x)) deletions

pub record Inv {W : Type 0} (s : Service W) (ph : ℕ → Phase) (doom : ℕ → Option ℕ) : Type 0 where
  pub queues : Queues s.descriptors s.reactor_tasks.queue s.strands s.deletions.queue ph
  pub events : (p : ℕ) → EventOk s doom p (ph p)
