-- ===== src/Kqueue/Tests.antt =====
-- The theorems about the kqueue reactor at a service with one receive: event 0 on descriptor 0, whose
-- handle is 7, and a kernel that reports event 0 once it is asked.
use baba_io.Base.{
  ℕ, Bool, false, pos, ◌≡◌, refl, true, none, some, [], ◌∷◌, insert, arith, ◌*◌, ◌≤◌,
}
use baba_io.Os.Codes.{ok_code}
use baba_io.Os.FileImpl.{IoResult}
use baba_io.Os.Tests.{Interest, nobody, small_kernel, good, bad}
use baba_io.Epoll.Memory.{ok, fault, dangling_event}
use baba_io.Kqueue.State.{
  Service, Event, Descriptor, Kqueue, Operations, recv_initiates, connect_initiates, connect_reacts,
  recv_reacts, bytes_call, registered, evfilt_read,
}
use baba_io.Kqueue.Memory.{fresh_event, ◌>>=◌, ◌>>◌}
use baba_io.Kqueue.Events.Timer.{microseconds}
use baba_io.Kqueue.Service.{
  initial, process_initiation_queue, process_completion_queue, reactor_round,
}
use baba_io.Kqueue.Service.Initiations.{
  recv_asks, initiation-outcome, refused, Arming, bytes_arming,
}
use baba_io.Kqueue.Service.Lifetime.{Idle, disposal, disposed, destroy-disposed, gone}
use baba_io.Kqueue.Service.Race.{destroy-reactor_round}
use baba_io.Kqueue.Service.Requests.{requests, recv_requests, served, request-served}
use baba_io.Kqueue.Reactor.Outcomes.{makes}
use baba_io.Kqueue.Service.Draining.{nothing, owing, process_completion_queue-calls}
use baba_io.Kqueue.Service.Twice.{told_twice, connect-calls_twice}
use baba_io.Kqueue.Timer.{construct, destroy}
use baba_io.Kqueue.Timer.Idents.{microseconds_exact, construct-destroy, unmade}

abbrev small_kqueue : Kqueue Interest
small_kqueue = record {
  os = small_kernel;
  kqueue = λ w. (good (pos 3), w);
  kevent_add = λ kqueue_fd change w. (good (pos 0), w);
  kevent_wait = λ kqueue_fd size w. (good (pos 1), registered 0 ∷ [], w);
}

-- A kernel that takes no event.
abbrev full_kqueue : Kqueue Interest
full_kqueue = record small_kqueue { kevent_add = λ kqueue_fd change w. (bad 12, w) }

abbrev five_bytes : IoResult
five_bytes = record { ec = ok_code; bytes = pos 5 }

abbrev operations : Operations Interest
operations = record {
  do_recv = λ fd buffer size w. (five_bytes, w);
  do_send = λ fd buffer size w. (five_bytes, w);
  do_accept = λ fd acceptor_ep peer_fd peer_ep w. (ok_code, w);
  do_connect = λ fd peer_ep w. (ok_code, w);
  do_recv_from = λ fd receiver_ep buffer size peer_ep w. (five_bytes, w);
  do_send_to = λ fd buffer size peer_ep w. (five_bytes, w);
}

abbrev receiving : Event
receiving = record (fresh_event) {
  scope = some 5;
  descriptor = some 0;
  initiate = some (recv_initiates 0 11);
  react = some (recv_reacts 0 64 (pos 8) 11);
}

abbrev socket : Descriptor
socket = record { fd = pos 7; refs = 2 }

-- The lifetimes when the user has let all go.
abbrev ended : ℕ → Bool
ended scope = false

abbrev service : Service Interest
service = record (initial 1 ended nobody) {
  register = insert (λ k. none) 0 receiving;
  id_generator = 1;
  initiation_queue = record { queue = [] };
  completion_queue = record { active = true; queue = [] };
  descriptors = insert (λ d. none) 0 socket;
  next_descriptor = 1;
  reactor_fd = pos 3;
  interrupter_fd = pos 4;
  interrupter = record { kqueue_fd = pos 3; read_end = pos 4; write_end = pos 5 };
}

abbrev starting : Service Interest
starting = record service { initiation_queue = record { queue = 0 ∷ [] } }

service-Idle : Idle small_kqueue service 0 0 receiving socket
service-Idle = record {
  held = refl;
  own = refl;
  points = refl;
  stored = refl;
  two = refl;
  valid = refl;
  free = refl;
  wrote = refl;
  no_initiations = refl;
  no_completions = refl;
}

abbrev receive : Arming
receive = bytes_arming evfilt_read 11

initiation-outcome_example :
    (process_initiation_queue full_kqueue operations 2
        >> process_completion_queue full_kqueue operations 2)
      starting
    ≡ ok (tt, refused full_kqueue starting 0 receiving socket receive)
initiation-outcome_example =
    initiation-outcome full_kqueue operations starting 0 0 receiving socket (recv_initiates 0 11)
      receive refl refl refl refl (recv_asks 11) refl refl (λ e. refl) 0 0

destroy-disposed_example :
    disposal small_kqueue operations 0 0 0 0 service
    ≡ ok (tt, disposed small_kqueue service 0 0 socket)
destroy-disposed_example =
    destroy-disposed small_kqueue operations service 0 0 receiving socket service-Idle 0 0

destroy-reactor_round_example :
    (gone small_kqueue 0 0
        >> reactor_round small_kqueue operations 2
        >> process_completion_queue small_kqueue operations 2)
      service
    ≡ fault dangling_event
destroy-reactor_round_example =
    destroy-reactor_round small_kqueue operations service 0 0 receiving socket service-Idle
      (recv_reacts 0 64 (pos 8) 11) refl refl refl (good (pos 1)) [] nobody refl refl 0 0

construct-destroy_example :
    (construct (some 5) >>= λ t.
    destroy small_kqueue t
    >> process_initiation_queue small_kqueue operations 2
    >> process_completion_queue small_kqueue operations 2)
      service
    ≡ ok (tt, unmade small_kqueue service)
construct-destroy_example =
    construct-destroy small_kqueue operations service 5 refl refl refl refl refl refl 0 0

microseconds_exact_example :
    (microseconds 5000000 ≡ 5000000 * 1000 → 5000000 ≤ 4294967)
    × (5000000 ≤ 4294967 → microseconds 5000000 ≡ 5000000 * 1000)
microseconds_exact_example = microseconds_exact 5000000 (omega arith)

abbrev connecting : Event
connecting = record (fresh_event) {
  scope = some 5;
  descriptor = some 0;
  initiate = some (connect_initiates 0 9 11);
  react = some (connect_reacts 0 11);
}

abbrev refusing : Operations Interest
refusing = record operations { do_connect = λ fd peer_ep w. (111, w) }

abbrev calling : Service Interest
calling = record starting { register = insert (λ k. none) 0 connecting }

connect-calls_twice_example :
    (process_initiation_queue small_kqueue refusing 2
        >> process_completion_queue small_kqueue refusing 2
        >> reactor_round small_kqueue refusing 1
        >> process_completion_queue small_kqueue refusing 2)
      calling
    ≡ ok (
      tt,
      told_twice small_kqueue refusing calling 0 0 9 11 connecting socket 111 nobody
          (good (pos 1))
          []
          nobody,
    )
connect-calls_twice_example =
    connect-calls_twice small_kqueue refusing calling 0 0 9 11 connecting socket 111 nobody
      (good (pos 1)) [] nobody refl refl refl refl refl refl refl refl refl refl refl refl refl 0 0
      0 0

abbrev resting : Event
resting = record (fresh_event) { scope = some 5; descriptor = some 0 }

abbrev ready_service : Service Interest
ready_service = record service { register = insert (λ k. none) 0 resting }

request-served_example :
    (requests small_kqueue 0 (recv_requests 64 (pos 8) 11)
        >> reactor_round small_kqueue operations 2
        >> process_completion_queue small_kqueue operations 2)
      ready_service
    ≡ ok (
      tt,
      served small_kqueue operations ready_service 0 0 resting socket
          (recv_requests 64 (pos 8) 11)
          (good (pos 1))
          []
          nobody,
    )
request-served_example =
    request-served small_kqueue operations ready_service 0 0 resting socket
      (recv_requests 64 (pos 8) 11) (good (pos 1)) [] nobody refl refl refl refl refl refl refl refl
      refl refl 0 0

abbrev received : Event
received = record receiving { complete = some (makes (bytes_call 11 ok_code (pos 5))) }

abbrev finishing : Service Interest
finishing = record service {
  register = insert (λ k. none) 0 received;
  completion_queue = record { active = true; queue = 0 ∷ 0 ∷ [] };
}

process_completion_queue-calls_example :
    process_completion_queue small_kqueue operations 3 finishing
    ≡ ok (
      tt,
      record finishing {
        completion_queue = record { active = true; queue = [] };
        calls = bytes_call 11 ok_code (pos 5) ∷ bytes_call 11 ok_code (pos 5) ∷ [];
      },
    )
process_completion_queue-calls_example =
    process_completion_queue-calls small_kqueue operations finishing (0 ∷ 0 ∷ [])
      (bytes_call 11 ok_code (pos 5) ∷ bytes_call 11 ok_code (pos 5) ∷ []) 3
      (owing 0 received (bytes_call 11 ok_code (pos 5)) (0 ∷ [])
        (bytes_call 11 ok_code (pos 5) ∷ []) refl refl
        (owing 0 received (bytes_call 11 ok_code (pos 5)) [] [] refl refl nothing))
      refl (omega arith)
