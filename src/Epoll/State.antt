-- ===== src/Epoll/State.antt =====
-- The state of an `epoll_service` and all that it owns or reaches: event objects, descriptors,
-- strands, queues. A pointer to an event is its key in the registrar's map, whose nodes do not move;
-- a pointer to a descriptor or a strand is a number likewise. The closures of the source are data,
-- with what they capture as arguments.
use baba_io.Base.{ℕ, ℤ, Bool, Option, List, Table}
use baba_io.Os.Codes.{ErrorCode, IoHandle}
use baba_io.Net.Storage.{AddrStorage, SockStorage}
use baba_io.Net.IpEndpoint.{IpEndpoint}
use baba_io.Library.BlockingQueue.{BlockingQueue}
use baba_io.Library.LockableQueue.{LockableQueue}

-- epoll_reactor_event.h, `reactor_io_descriptor`. The mutex is not state: what it guards is one step.
pub record Descriptor : Type 0 where
  pub fd : IoHandle
  pub read_event : Option ℕ
  pub write_event : Option ℕ
  pub event_mask : ℕ
  pub in_scope : Bool

-- `react_fn`: the closures that the operations of the events store, each with the event it captures.
pub data React : Type 0 where
  recv_react : (evt buffer : ℕ) → (size : ℤ) → (cb : ℕ) → React
  send_react : (evt buffer : ℕ) → (size : ℤ) → (cb : ℕ) → React
  timer_react : (evt cb : ℕ) → React
  connect_react : (evt cb : ℕ) → (e : ErrorCode) → React
  accept_react : (evt accepting cb : ℕ) → React

-- `complete_fn`: the closures of `for_completion` in each event, and that of `dispose`.
pub data Complete : Type 0 where
  recved : (evt : ℕ) → (e : ErrorCode) → (cb : ℕ) → (bytes : ℤ) → Complete
  sended : (evt : ℕ) → (e : ErrorCode) → (cb : ℕ) → (bytes : ℤ) → Complete
  expired : (evt : ℕ) → (e : ErrorCode) → (cb : ℕ) → Complete
  connected : (evt : ℕ) → (e : ErrorCode) → (cb : ℕ) → Complete
  accepted : (evt : ℕ) → (e : ErrorCode) → (cb : ℕ) → Complete
  finalise : (evt final_evt : ℕ) → Complete

-- epoll_reactor_event.h, `reactor_event`. `none` is an empty function or a null pointer.
pub record Event : Type 0 where
  pub descriptor : Option ℕ
  pub react : Option React
  pub complete : Option Complete
  pub has_active_event : Bool
  pub strand : Option ℕ
  pub id : ℕ

-- event_registrar.h.
pub record Registrar : Type 0 where
  pub register : Table Event
  pub id_generator : ℕ

-- What stands in the completion queue of a strand: `[evt]() { evt->complete(); }`, or a task that
-- the user posted.
pub data Task : Type 0 where
  completes : (evt : ℕ) → Task
  posted : (task : ℕ) → Task

-- epoll_completion_strand.h, `completion_strand_impl`.
pub record Strand : Type 0 where
  pub run : Bool
  pub completion_queue : BlockingQueue Task

-- What stands in the reactor task queue: a reaction of the read or the write event of a descriptor,
-- or the hand-over of a final event to its strand.
pub data ReactorTask : Type 0 where
  read_reacts : (io_desc : ℕ) → (e : ErrorCode) → ReactorTask
  write_reacts : (io_desc : ℕ) → (e : ErrorCode) → ReactorTask
  hands_over : (evt : ℕ) → ReactorTask

-- epoll_reactor.h.
pub record Reactor : Type 0 where
  pub run : Bool
  pub fd : IoHandle
  pub interrupter_fd : IoHandle

-- epoll_interrupter.h; the two ends of the self pipe by name.
pub record Interrupter : Type 0 where
  pub epoll_fd : IoHandle
  pub read_end : IoHandle
  pub write_end : IoHandle

-- A call of a function of the user: the callback of an operation with its arguments, or a task.
pub data Call : Type 0 where
  code_call : (cb : ℕ) → ErrorCode → Call
  bytes_call : (cb : ℕ) → ErrorCode → ℤ → Call
  task_call : (task : ℕ) → Call

-- The members of an `async_acceptor` that an accept in progress holds references to; they stand at an
-- address of their own.
pub record Accepting : Type 0 where
  pub acceptor_ep : IpEndpoint
  pub peer_fd : IoHandle
  pub peer_ep : IpEndpoint

-- epoll_service.h, with the state of the operating system the calls made so far, latest first,
-- and what the memory of a new endpoint and of a new address holds before it is written.
pub record Service (W : Type 0) : Type 0 where
  pub run : Bool
  pub strands : Table Strand
  pub next_strand : ℕ
  pub reactor : Reactor
  pub interrupter : Interrupter
  pub registrar : Registrar
  pub reactor_tasks : BlockingQueue ReactorTask
  pub deletions : LockableQueue ℕ
  pub num_reactor_threads : ℕ
  pub descriptors : Table Descriptor
  pub next_descriptor : ℕ
  pub accepting : Table Accepting
  pub next_accepting : ℕ
  pub calls : List Call
  pub unwritten_sock : SockStorage
  pub unwritten_addr : AddrStorage
  pub world : W
