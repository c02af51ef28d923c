-- ===== src/Kqueue/State.antt =====
-- The state of a `kqueue_service` and of the events that it runs, kqueue_reactor_event.h. A pointer to
-- an event is its key in the registrar; the closures of the source are data, with what they capture
-- as arguments. The functions that an event has from the service are the same for all events.
use baba_io.Base.{ℕ, ℤ, Bool, Option, List, Table}
use baba_io.Os.Codes.{ErrorCode, IoHandle}
use baba_io.Os.FileImpl.{IoResult}
use baba_io.Os.Kernel.{Kernel, Ret}
use baba_io.Library.SafeQueue.{SafeQueue}
use baba_io.Library.BlockingQueue.{BlockingQueue}

-- `initiate_fn`: what `recv`, `send` and the others store, and what the destructors store in a final
-- event.
pub data Initiate : Type 0 where
  recv_initiates send_initiates accept_initiates : (evt cb : ℕ) → Initiate
  recv_from_initiates send_to_initiates : (evt cb : ℕ) → Initiate
  connect_initiates : (evt peer_ep cb : ℕ) → Initiate
  timer_initiates : (evt timeout_ms cb : ℕ) → Initiate
  final_initiates : (evt final_evt : ℕ) → Initiate

-- `react_fn`. Endpoints and handles that are captured by reference are addresses.
pub data React : Type 0 where
  recv_reacts send_reacts : (evt buffer : ℕ) → (size : ℤ) → (cb : ℕ) → React
  accept_reacts : (evt acceptor_ep peer_fd peer_ep cb : ℕ) → React
  connect_reacts timer_reacts : (evt cb : ℕ) → React
  recv_from_reacts : (evt receiver_ep buffer : ℕ) → (size : ℤ) → (peer_ep cb : ℕ) → React
  send_to_reacts : (evt buffer : ℕ) → (size : ℤ) → (peer_ep cb : ℕ) → React

-- `complete_fn`.
pub data Complete : Type 0 where
  bytes_completes : (e : ErrorCode) → (bytes : ℤ) → (cb : ℕ) → Complete
  code_completes : (e : ErrorCode) → (cb : ℕ) → Complete
  final_completes : (evt final_evt : ℕ) → Complete

-- `reactor_event`. `none` is an empty function or a null pointer; the scope is a lifetime by its number, of
-- which the event has a weak pointer.
pub record Event : Type 0 where
  pub descriptor : Option ℕ
  pub initiate : Option Initiate
  pub react : Option React
  pub complete : Option Complete
  pub scope : Option ℕ
  pub id : ℕ

-- `reactor_io_descriptor`, and how many `std::shared_ptr` there are to it.
pub record Descriptor : Type 0 where
  pub fd : IoHandle
  pub refs : ℕ

-- EVFILT_READ, EVFILT_WRITE and EVFILT_TIMER.
pub data Filter : Type 0 where
  evfilt_read evfilt_write evfilt_timer : Filter

-- The user data of a `struct kevent`: the event of the self pipe, or one of the registrar.
pub data Udata : Type 0 where
  self_pipe : Udata
  registered : (evt : ℕ) → Udata

-- `struct kevent` with the flag EV_ADD, and EV_ONESHOT where `oneshot` says so.
pub record Change : Type 0 where
  pub ident : IoHandle
  pub filter : Filter
  pub oneshot : Bool
  pub fflags : ℕ
  pub amount : ℕ
  pub udata : Udata

-- The system calls of the source: those that it shares with the other reactor, and its own.
pub record Kqueue (W : Type 0) : Type 0 where
  pub os : Kernel W
  pub kqueue : W → Ret × W
  -- `kevent` with a list of one change and no list of events.
  pub kevent_add : IoHandle → Change → W → Ret × W
  -- `kevent` with a list of events and no change.
  pub kevent_wait : IoHandle → ℕ → W → Ret × List Udata × W

-- The functions that the constructors of the events are given.
pub record Operations (W : Type 0) : Type 0 where
  pub do_recv : IoHandle → (buffer : ℕ) → (size : ℤ) → W → IoResult × W
  pub do_send : IoHandle → (buffer : ℕ) → (size : ℤ) → W → IoResult × W
  pub do_accept : IoHandle → (acceptor_ep peer_fd peer_ep : ℕ) → W → ErrorCode × W
  pub do_connect : IoHandle → (peer_ep : ℕ) → W → ErrorCode × W
  pub do_recv_from :
      IoHandle → (receiver_ep buffer : ℕ) → (size : ℤ) → (peer_ep : ℕ) → W → IoResult × W
  pub do_send_to : IoHandle → (buffer : ℕ) → (size : ℤ) → (peer_ep : ℕ) → W → IoResult × W

-- A call of a function of the user.
pub data Call : Type 0 where
  code_call : (cb : ℕ) → ErrorCode → Call
  bytes_call : (cb : ℕ) → ErrorCode → ℤ → Call

-- kqueue_interrupter.h; the two ends of the self pipe by name.
pub record Interrupter : Type 0 where
  pub kqueue_fd : IoHandle
  pub read_end : IoHandle
  pub write_end : IoHandle

-- kqueue_service.h and kqueue_reactor.h, with the registrar, the generator of idents of
-- kqueue_timer_impl, the lifetimes that users still hold, the calls made so far, latest first, and the state of the operating system.
pub record Service (W : Type 0) : Type 0 where
  pub run : Bool
  pub register : Table Event
  pub id_generator : ℕ
  pub descriptors : Table Descriptor
  pub next_descriptor : ℕ
  pub ident_generator : ℕ
  pub lives : ℕ → Bool
  pub initiation_queue : SafeQueue ℕ
  pub completion_queue : BlockingQueue ℕ
  pub reactor_fd : IoHandle
  pub interrupter_fd : IoHandle
  pub interrupter : Interrupter
  pub calls : List Call
  pub world : W
