-- ===== src/Epoll/System/Tests.antt =====
-- The threads of a service with one connection, descriptor 0 on handle 7, and one strand: a receive,
-- event 0, whose reaction is queued, and a send, event 1, whose completion is; the final event 2 of
-- the send waits on the strand, the final event 3 of the receive in the deletion queue.
use baba_io.Base.{
  ℕ, zero, suc, pos, refl, inl, inr, true, none, some, Option, [], ◌∷◌, insert, arith,
}
use baba_io.Os.Tests.{Interest, nobody, small_kernel}
use baba_io.Net.Storage.{zeroed}
use baba_io.Epoll.State.{
  Service, Event, Descriptor, Strand, recv_react, sended, finalise, read_reacts,
}
use baba_io.Epoll.State
use baba_io.Epoll.Registrar.{fresh_event}
use baba_io.Epoll.Service.{initial}
use baba_io.Epoll.Proactor.Queue.{running}
use baba_io.Epoll.System.Invariant.{
  Phase, resting, reacting, deleting, completing, finalising, completion_event, CompletionFits,
  EventOk, Inv,
}
use baba_io.Epoll.System.Places.{All, Apart, At}
use baba_io.Epoll.System.StrandMoves.{on_insert}
use baba_io.Epoll.System.Turns.{reacts, deletes, completes, posts, run_turns}
use baba_io.Epoll.System.Keeping.{Keeps}
use baba_io.Epoll.System.Safety.{run_turns-Keeps}
use baba_io.Epoll.System.Draining.{process_reactor_queue-Keeps}
use baba_io.Epoll.Proactor.{process_reactor_queue}

abbrev socket : Descriptor
socket = record {
  fd = pos 7;
  read_event = some 0;
  write_event = some 1;
  event_mask = 0;
  in_scope = true;
}

abbrev on_connection : Event
on_connection = record fresh_event { descriptor = some 0; has_active_event = true; strand = some 0 }

abbrev reader : Event
reader = record on_connection { react = some (recv_react 0 1000 (pos 64) 11) }

abbrev writer : Event
writer = record on_connection { complete = some (sended 1 0 12 (pos 5)); id = 1 }

abbrev final_of : ℕ → ℕ → Event
final_of evt p = record fresh_event { complete = some (finalise evt p); strand = some 0; id = p }

abbrev connection_strand : Strand
connection_strand = running true (State.completes 1 ∷ State.completes 2 ∷ [])

abbrev service : Service Interest
service =
    let s = initial zeroed 0 nobody in
    record s {
      registrar = record {
        register =
            insert (insert (insert (insert (λ k. none) 0 reader) 1 writer) 2 (final_of 1 2)) 3
              (final_of 0 3);
        id_generator = 4;
      };
      strands = insert (λ k. none) 0 connection_strand;
      next_strand = 1;
      descriptors = insert (λ k. none) 0 socket;
      next_descriptor = 1;
      reactor_tasks = record (s.reactor_tasks) { queue = read_reacts 0 0 ∷ [] };
      deletions = record { queue = 3 ∷ [] };
    }

abbrev phase : ℕ → Phase
phase zero = reacting
phase (suc zero) = completing 0
phase (suc (suc zero)) = finalising 0
phase (suc (suc (suc zero))) = deleting
phase (suc (suc (suc (suc p)))) = resting

abbrev final_event : ℕ → Option ℕ
final_event zero = some 3
final_event (suc zero) = some 2
final_event (suc (suc p)) = none

service-EventOk : (p : ℕ) → EventOk service final_event p (phase p)
service-EventOk zero = record {
  event = reader;
  found = refl;
  reaction = recv_react 0 1000 (pos 64) 11;
  reacts = refl;
  mine = refl;
  io_desc = 0;
  io = refl;
  descriptor = socket;
  open_io = refl;
  strand = 0;
  on = refl;
  queue = (_, refl);
  active = refl;
}
service-EventOk (suc zero) = record {
  event = writer;
  found = refl;
  completion = sended 1 0 12 (pos 5);
  holds = refl;
  mine = refl;
  call = _;
  owed = refl;
  io_desc = 0;
  io = refl;
  descriptor = socket;
  open_io = refl;
  active = refl;
}
service-EventOk (suc (suc zero)) = (
  record {
    event = final_of 1 2;
    found = refl;
    id = refl;
    victim = 1;
    closure = refl;
    strand = 0;
    on = refl;
    queue = (_, refl);
    target = writer;
    target_found = refl;
    target_id = refl;
    dooms = refl;
    free = refl;
  },
  refl,
)
service-EventOk (suc (suc (suc zero))) = record {
  event = final_of 0 3;
  found = refl;
  id = refl;
  victim = 0;
  closure = refl;
  strand = 0;
  on = refl;
  queue = (_, refl);
  target = reader;
  target_found = refl;
  target_id = refl;
  dooms = refl;
  free = refl;
}
service-EventOk (suc (suc (suc (suc p)))) = tt

service-Inv : Inv service phase final_event
service-Inv = record {
  queues = record {
    tasks_placed = (refl, tt);
    tasks_known = ((0, refl), tt);
    tasks_apart = (tt, tt);
    completions_placed =
        on_insert
          (λ k t. All (At completion_event (CompletionFits k) phase) t.completion_queue.queue)
          (λ k. none) 0 connection_strand (inl refl, (inr refl, tt)) (λ k t ne h. absurd (cc h));
    completions_apart =
        on_insert (λ k t. Apart completion_event t.completion_queue.queue) (λ k. none) 0
          connection_strand ((λ e. absurd (omega arith), tt), (tt, tt)) (λ k t ne h. absurd (cc h));
    deletions_placed = (refl, tt);
    deletions_apart = (tt, tt);
  };
  events = service-EventOk;
}

-- The send completes, its final event deletes it, that of the receive is handed over and waits until
-- the receive has completed.
run_turns-Keeps_example : Keeps service final_event (
    run_turns small_kernel (
      completes 0
      ∷ deletes
      ∷ reacts
      ∷ posts 0 77
      ∷ reacts
      ∷ completes 0
      ∷ completes 0
      ∷ completes 0
      ∷ completes 0
      ∷ completes 0
      ∷ []))
run_turns-Keeps_example = run_turns-Keeps small_kernel service phase final_event service-Inv (
    completes 0
    ∷ deletes
    ∷ reacts
    ∷ posts 0 77
    ∷ reacts
    ∷ completes 0
    ∷ completes 0
    ∷ completes 0
    ∷ completes 0
    ∷ completes 0
    ∷ [])

process_reactor_queue-Keeps_example :
    Keeps service final_event (process_reactor_queue small_kernel 2)
process_reactor_queue-Keeps_example =
    process_reactor_queue-Keeps small_kernel service phase final_event 2 service-Inv (omega arith)
