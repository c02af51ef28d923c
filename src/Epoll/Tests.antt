-- ===== src/Epoll/Tests.antt =====
-- The theorems about the reactor at a service with one connection: descriptor 0 on handle 7, whose
-- read event is 0 and whose write event is 1, and the final event 2 of the read event, on strand 0.
use baba_io.Base.{
  pos, ◌≡◌, ◌≢◌, refl, ◌⊎◌, true, false, Option, none, some, [], ◌∷◌, arith, insert, if◌then◌else◌,
  ◌==◌,
}
use baba_io.Library.BlockingQueue
use baba_io.Library.BlockingQueue.{Op, wait}
use baba_io.Os.Codes.{ok_code, IoHandle, eagain, invalid_handle}
use baba_io.Os.Kernel.{Kernel, EpollEvent, Ret}
use baba_io.Os.EpollImpl
use baba_io.Os.EpollImpl.{with_oneshot}
use baba_io.Os.FileImpl
use baba_io.Os.Tests.{Interest, nobody, small_kernel, good, bad, entered}
use baba_io.Epoll.State.{
  Service, Event, Descriptor, Strand, Registrar, recv_react, recved, finalise, completes, posted,
  read_reacts, write_reacts, hands_over, bytes_call, ReactorTask, Accepting, accept_react, accepted,
}
use baba_io.Epoll.Memory.{ok, fault, out_of_fuel, aborted, bad_function_call, Returns, ◌>>◌}
use baba_io.Epoll.Mask.{has_in, set_in, set_out}
use baba_io.Epoll.Events.Send
use baba_io.Epoll.Registrar.{fresh_event, take_id}
use baba_io.Epoll.Registrar.Ids.{IsRegistrar, Taken, take_id-Taken}
use baba_io.Epoll.Arm.{init_read, init_write}
use baba_io.Epoll.Arm.Rollback.{recv-send_fault}
use baba_io.Epoll.Events.Recv
use baba_io.Epoll.Deletion.{complete_final, dispose}
use baba_io.Epoll.Deletion.Completion.{enqueued, complete_final_lem}
use baba_io.Epoll.Deletion.Disposing.{Disposing, dispose-Disposing}
use baba_io.Epoll.Proactor.{
  run_complete, run_react, process_completion_queue, process_reactor_queue,
}
use baba_io.Epoll.Proactor.Callbacks.{completed, run_complete_lem}
use baba_io.Epoll.Proactor.Reactions.{reacted, outcome, run_react_lem}
use baba_io.Epoll.Proactor.Accepting.{answered, answer, run_accept_lem}
use baba_io.Epoll.Io.Acceptor.{AsyncAcceptor, fin_accept}
use baba_io.Epoll.Io.Acceptor
use baba_io.Epoll.Io.Acceptor.Moving.{late, moved-fin_accept}
use baba_io.Epoll.Proactor.Queue.{running, at}
use baba_io.Epoll.Proactor.Disposal.{Disposed, overtaken, deleted, disposal-deletes}
use baba_io.Epoll.Reactor.{ready_io, consume}
use baba_io.Epoll.Reactor.Interrupts.{Drains, consume-Drains, consume-endless}
use baba_io.Epoll.Reactor.Rounds.{
  remaining, remasked, after_reports, after_errors, rearmed, ready_io_lem,
}
use baba_io.Epoll.Service.{initial, process_deletion_queue, stop}
use baba_io.Epoll.Service.Deletions.{queued, process_deletion_queue_lem}
use baba_io.Epoll.Service.Stopping.{IsStopped, stop-IsStopped}
use baba_io.Epoll.Interrupter.{write_fails, written}
use baba_io.Epoll.Io.Connector.{AsyncConnector}
use baba_io.Epoll.Io.Tcp.{AsyncTcp}
use baba_io.Net.IpEndpoint
use baba_io.Net.IpEndpoint.{IpEndpoint}
use baba_io.Net.Storage.{zeroed}

abbrev socket : Descriptor
socket = record {
  fd = pos 7;
  read_event = some 0;
  write_event = some 1;
  event_mask = 5;
  in_scope = true;
}

abbrev closed_socket : Descriptor
closed_socket = record socket { in_scope = false }

-- A receive that has failed with code 104, and is active.
abbrev reader : Event
reader = record {
  descriptor = some 0;
  react = none;
  complete = some (recved 0 104 11 (pos 0));
  has_active_event = true;
  strand = some 0;
  id = 0;
}

abbrev writer : Event
writer = record fresh_event { descriptor = some 0; strand = some 0; id = 1 }

abbrev final_event : Event
final_event = record fresh_event { complete = some (finalise 0 2); strand = some 0; id = 2 }

abbrev registrar : Registrar
registrar = record {
  register = insert (insert (insert (λ k. none) 0 reader) 1 writer) 2 final_event;
  id_generator = 3;
}

abbrev idle_strand : Strand
idle_strand = running true []

abbrev service : Service Interest
service = record (initial zeroed 0 nobody) {
  registrar = registrar;
  strands = insert (λ k. none) 0 idle_strand;
  next_strand = 1;
  descriptors = insert (λ k. none) 0 socket;
  next_descriptor = 1;
  reactor = record { run = true; fd = pos 3; interrupter_fd = pos 4 };
}

abbrev closed_service : Service Interest
closed_service = record service { descriptors = insert (λ k. none) 0 closed_socket }

closed_service-Disposed :
    Disposed closed_service 0 2 0 0 reader final_event closed_socket
      (recved 0 104 11 (pos 0))
      (bytes_call 11 104 (pos 0))
closed_service-Disposed = record {
  event = refl;
  final_event = refl;
  apart = λ h. absurd (omega arith);
  event_id = refl;
  final_id = refl;
  final_complete = refl;
  final_strand = refl;
  event_complete = refl;
  owned = refl;
  owed = refl;
  active = refl;
  io = refl;
  io_descriptor = refl;
  left_scope = refl;
}

disposal-deletes_example :
    process_completion_queue 6 0 (at closed_service 0 true (overtaken 0 2 (21 ∷ []) (22 ∷ [])))
    ≡ ok (
      tt,
      at
          (deleted closed_service 0 2
            (baba_io.Epoll.State.task_call 22 ∷ baba_io.Epoll.State.task_call 21 ∷ []))
          0
          true
          [],
    )
disposal-deletes_example =
    disposal-deletes closed_service 0 2 0 0 reader final_event closed_socket
      (recved 0 104 11 (pos 0)) (bytes_call 11 104 (pos 0)) true (21 ∷ []) (22 ∷ []) 0
      closed_service-Disposed

run_complete_lem_example :
    run_complete (recved 0 0 11 (pos 0)) service
    ≡ ok (tt, completed service 0 reader true (bytes_call 11 9000 (pos 0)))
run_complete_lem_example =
    run_complete_lem service 0 0 reader socket refl refl refl (recved 0 0 11 (pos 0))
      (bytes_call 11 9000 (pos 0)) refl refl

run_react_lem_example :
    run_react small_kernel (recv_react 0 1000 (pos 64) 11) 0 service
    ≡ ok (
      tt,
      reacted small_kernel service 0 0 reader idle_strand
          (outcome small_kernel (recv_react 0 1000 (pos 64) 11) 0 true (pos 7) nobody).0
          (outcome small_kernel (recv_react 0 1000 (pos 64) 11) 0 true (pos 7) nobody).1,
    )
run_react_lem_example =
    run_react_lem small_kernel service 0 0 0 reader socket idle_strand refl refl refl refl refl
      (recv_react 0 1000 (pos 64) 11) 0 refl

complete_final_lem_example :
    complete_final 0 2 service ≡ ok (tt, enqueued service 0 idle_strand (completes 2))
complete_final_lem_example =
    complete_final_lem service 0 2 0 reader final_event idle_strand refl refl refl refl
      (λ h. absurd (omega arith)) refl refl

process_deletion_queue_lem_example :
    process_deletion_queue 3 (queued service (2 ∷ 5 ∷ []) (read_reacts 0 0 ∷ []))
    ≡ ok (tt, queued service [] (read_reacts 0 0 ∷ hands_over 2 ∷ hands_over 5 ∷ []))
process_deletion_queue_lem_example =
    process_deletion_queue_lem (2 ∷ 5 ∷ []) 3 (read_reacts 0 0 ∷ []) service (omega arith)

-- Input is reported, and output is armed again.
ready_io_lem_example : ready_io small_kernel (record { events = 1; ptr = 0 }) service ≡ (
    if remaining 1 5 == 0
    then ok
        (tt, after_reports 1 0 0 1 reader writer (remasked service 0 socket (remaining 1 5) nobody))
    else (if (rearmed small_kernel service 1 0 socket).0 == ok_code
        then ok (
          tt,
          after_reports 1 0 0 1 reader writer (
              remasked service 0 socket
                (remaining 1 5)
                (rearmed small_kernel service 1 0 socket).1),
        )
        else ok (
          tt,
          after_errors 0 0 1 reader writer (
              remasked service 0 socket
                (remaining 1 5)
                (rearmed small_kernel service 1 0 socket).1),
        )))
ready_io_lem_example =
    ready_io_lem small_kernel service 1 0 0 1 socket reader writer refl refl refl refl refl
      (λ h. absurd (omega arith))

registrar-IsRegistrar : IsRegistrar registrar
registrar-IsRegistrar = record { keyed = λ k e h. ground arith; below = λ k e h. ground arith }

take_id-Taken_example : Taken registrar 3 (take_id registrar).1
unfolding take_id
take_id-Taken_example = take_id-Taken registrar registrar-IsRegistrar (omega arith)

dispose-Disposing_example :
    ((write_fails small_kernel service ≡ true)
      × (dispose small_kernel (some 1) service ≡ fault aborted))
    ⊎ ((write_fails small_kernel service ≡ false)
        × Returns
            (λ _ s'. Disposing service s' 1 writer × (s'.world ≡ written small_kernel service))
            (dispose small_kernel (some 1) service))
dispose-Disposing_example =
    dispose-Disposing small_kernel service 1 writer registrar-IsRegistrar (omega arith) refl

stop-IsStopped_example :
    ((write_fails small_kernel service ≡ true) × (stop small_kernel service ≡ fault aborted))
    ⊎ ((write_fails small_kernel service ≡ false)
        × Returns
            (λ _ s'.
              IsStopped s'
              × (s'.reactor_tasks.queue ≡ [])
              × (s'.deletions ≡ service.deletions)
              × (s'.registrar ≡ registrar)
              × (s'.world ≡ written small_kernel service))
            (stop small_kernel service))
unfolding BlockingQueue.empty
stop-IsStopped_example = stop-IsStopped small_kernel service

-- A system that refuses to add a handle.
abbrev full_kernel : Kernel Interest
full_kernel = record small_kernel { epoll_ctl = λ epoll_fd op fd evt w. (bad 28, w) }

full_kernel-refuses : (EpollImpl.arm full_kernel (pos 3) (pos 7) (set_in 5) 0 nobody).0 ≢ ok_code
unfolding EpollImpl.arm
full_kernel-refuses h = absurd (omega arith)

-- A system that refuses to add the first handle that it is asked for, and takes what comes after.
abbrev busy_kernel : Kernel Interest
busy_kernel = record small_kernel {
  epoll_ctl = λ epoll_fd op fd evt w. elim (w (pos 99)) [
    | none ↦ (bad 28, entered w (pos 99) (some evt))
    | some e ↦ (good (pos 0), w)
  ];
}

abbrev once_refused : Interest
once_refused = entered nobody (pos 99) (some (record { events = with_oneshot 1; ptr = 0 }))

busy_kernel-refuses : (EpollImpl.arm busy_kernel (pos 3) (pos 7) (set_in 0) 0 nobody).0 ≢ ok_code
unfolding EpollImpl.arm set_in
busy_kernel-refuses h = absurd (omega arith)

busy_kernel-arms :
    EpollImpl.arm busy_kernel
      (pos 3)
      (pos 7)
      (set_out (set_in 0))
      0
      (EpollImpl.arm busy_kernel (pos 3) (pos 7) (set_in 0) 0 nobody).1
    ≡ (ok_code, once_refused)
unfolding EpollImpl.arm set_in set_out
busy_kernel-arms = refl

-- A socket of which nothing is asked.
abbrev quiet_socket : Descriptor
quiet_socket = record socket { event_mask = 0 }

abbrev quiet_service : Service Interest
quiet_service = record service { descriptors = insert (λ k. none) 0 quiet_socket }

recv-send_fault_example :
    (Recv.recv (init_read busy_kernel) (record { evt = some 0 }) 1000 (pos 64) (some 11)
        >> Send.send (init_write busy_kernel) (record { evt = some 1 }) 2000 (pos 8) (some 12)
        >> ready_io busy_kernel (record { events = 1; ptr = 0 })
        >> process_reactor_queue busy_kernel 1)
      quiet_service
    ≡ fault bad_function_call
unfolding has_in BlockingQueue.empty
recv-send_fault_example =
    recv-send_fault busy_kernel quiet_service 0 0 0 reader quiet_socket idle_strand refl refl refl
      refl refl refl busy_kernel-refuses 1 writer refl refl (λ h. absurd (omega arith)) once_refused
      busy_kernel-arms 11 1 refl refl refl refl 1000 (pos 64) 2000 (pos 8) 12 0

abbrev ep : IpEndpoint
ep = record { sock = zeroed; sock_len = 0; address = record { addr = 0; af = 0 }; port = 0 }

-- A connection as it is default constructed, and a connected connector.
abbrev no_connection : AsyncTcp
no_connection = record {
  strand_for_user = none;
  strand = none;
  descriptor = none;
  recver = record { evt = none };
  sender = record { evt = none };
  ep = ep;
}

abbrev connector : AsyncConnector
connector = record {
  strand_for_user = some (record { impl = 0 });
  strand = some 0;
  descriptor = some 0;
  connector = record { evt = some 1 };
  connector_ep = ep;
}

-- A system in which a handle holds one byte while it stands in the table.
abbrev take_byte : IoHandle → Option EpollEvent → Interest → Ret × Interest
take_byte fd none w = (bad eagain, w)
take_byte fd (some e) w = (good (pos 1), entered w fd none)

abbrev piped_kernel : Kernel Interest
piped_kernel = record small_kernel { read = λ fd buffer size w. take_byte fd (w fd) w }

abbrev one_byte : Interest
one_byte = entered nobody (pos 4) (some (record { events = 1; ptr = 0 }))

abbrev interrupted : Service Interest
interrupted = record service {
  reactor = record (service.reactor) { interrupter_fd = pos 4 };
  world = one_byte;
}

consume-Drains_example :
    consume piped_kernel 2 interrupted
    ≡ ok (tt, record interrupted { world = entered one_byte (pos 4) none })
unfolding Drains FileImpl.read
consume-Drains_example =
    consume-Drains piped_kernel 1 2 interrupted (entered one_byte (pos 4) none) (refl, (refl, refl))
      (omega arith)

abbrev closed_pipe : Kernel Interest
closed_pipe = record small_kernel { read = λ fd buffer size w. (bad 9, w) }

consume-endless_example : consume closed_pipe 1000 interrupted ≡ fault out_of_fuel
unfolding FileImpl.read
consume-endless_example = consume-endless closed_pipe 1000 interrupted (λ w h. absurd (omega arith))

-- An acceptor on handle 7, which listens at a port of 127.0.0.1.
abbrev listening_ep : IpEndpoint
listening_ep = record {
  sock = record { family = 2; port = 36895; word = 16777343; body = 0; scope = 0 };
  sock_len = 16;
  address = record { addr = 16777343; af = 2 };
  port = 8080;
}

abbrev listening : Accepting
listening = record { acceptor_ep = listening_ep; peer_fd = invalid_handle; peer_ep = ep }

abbrev accepting_service : Service Interest
accepting_service = record service {
  accepting = insert (λ k. none) 0 listening;
  next_accepting = 1;
}

run_accept_lem_example :
    run_react small_kernel (accept_react 0 0 11) 0 accepting_service
    ≡ ok (
      tt,
      reacted small_kernel
          (answered small_kernel accepting_service socket 0 listening)
          0
          0
          reader
          idle_strand
          (accepted 0 (answer small_kernel accepting_service socket 0 listening) 11)
          (answered small_kernel accepting_service socket 0 listening).world,
    )
run_accept_lem_example =
    run_accept_lem small_kernel accepting_service socket 0 listening 0 0 0 reader idle_strand refl
      refl refl refl refl refl 11 0

abbrev acceptor : AsyncAcceptor
acceptor = record {
  strand_for_user = some (record { impl = 0 });
  strand = some 0;
  descriptor = some 0;
  acceptor = record { evt = some 0 };
  accepting = 0;
}

moved-fin_accept_example :
    Returns
      (λ (self, rest) s'.
        (self.accepting ≢ 0)
        × (s'.accepting self.accepting
            ≡ some (record listening {
              acceptor_ep = (IpEndpoint.moved listening_ep).0;
              peer_ep = (IpEndpoint.moved ep).0;
            }))
        × Returns
            (λ e s''.
              (s''.accepting self.accepting ≡ s'.accepting self.accepting)
              × (s''.accepting 0
                  ≡ some (
                      late small_kernel accepting_service listening
                        (small_kernel.accept (pos 7) 0 nobody))))
            (fin_accept small_kernel (pos 7) 0 s'))
      (Acceptor.moved acceptor accepting_service)
moved-fin_accept_example =
    moved-fin_accept small_kernel accepting_service listening acceptor refl (omega arith) (pos 7)
