-- ===== src/Iocp/State.antt =====
-- The state of an `iocp_service` and of the events that it runs, iocp_reactor_event.h. A pointer to an
-- event is its key in the registrar; the closures of the source are data, with what they capture.
use baba_io.Base.{ℕ, ℤ, Bool, Option, List, Table}
use baba_io.Os.Codes.{ErrorCode, IoHandle}
use baba_io.Os.Kernel.{Ret}
use baba_io.Library.SafeQueue.{SafeQueue}
use baba_io.Library.BlockingQueue.{BlockingQueue}

-- `react_fn` and `complete_fn`.
pub data React : Type 0 where
  timer_reacts : (evt cb : ℕ) → React

pub data Complete : Type 0 where
  code_completes : (e : ErrorCode) → (cb : ℕ) → Complete
  final_completes : (evt final_evt : ℕ) → Complete

-- `reactor_event`. `none` is an empty function or a null pointer; the scope is a
-- lifetime by its number, of which the event has a weak pointer; the function that queues the event is
-- that of the service, or empty.
pub record Event : Type 0 where
  pub descriptor : Option ℕ
  pub react : Option React
  pub complete : Option Complete
  pub scope : Option ℕ
  pub id : ℕ
  pub enqueues : Bool

-- FILETIME
pub record FileTime : Type 0 where
  pub low : ℕ
  pub high : ℕ

-- `iocp_timer_context`
pub record TimerContext : Type 0 where
  pub iocp_fd : IoHandle
  pub evt : Option ℕ

-- The calls of Windows that the source makes. `errno` of a result is what `GetLastError` answers after
-- the call, or `errno` for the timer. A BOOL is 1 or 0, a handle that is NULL is 0.
pub record Windows (W : Type 0) : Type 0 where
  pub create_io_completion_port : (fd : IoHandle) → (existing : Option IoHandle) → W → Ret × W
  -- The number of entries and the OVERLAPPED of each stand in what the call fills.
  pub get_queued_completion_status_ex : IoHandle → (size : ℕ) → W → Ret × ℕ × List ℕ × W
  pub post_queued_completion_status : IoHandle → (evt : Option ℕ) → W → W
  pub close_handle : IoHandle → W → W
  -- The number of bytes stands in what the call fills.
  pub read_file : IoHandle → (buffer : ℕ) → (size : ℤ) → W → Ret × ℤ × W
  pub write_file : IoHandle → (buffer : ℕ) → (size : ℤ) → W → Ret × ℤ × W
  -- The context is an address.
  pub create_threadpool_timer : (ctx : ℕ) → W → Ret × W
  pub close_threadpool_timer : IoHandle → W → W
  pub set_threadpool_timer : IoHandle → FileTime → W → W

-- A call of a function of the user with a code.
pub record Call : Type 0 where
  pub cb : ℕ
  pub code : ErrorCode

-- iocp_service.h and iocp_reactor.h, with the registrar, the descriptors (their handles) and the contexts
-- of timers by their addresses, the lifetimes that users still hold, the calls made so far, latest first, and the state of the system.
pub record Service (W : Type 0) : Type 0 where
  pub run : Bool
  pub register : Table Event
  pub id_generator : ℕ
  pub descriptors : Table IoHandle
  pub contexts : Table TimerContext
  pub next_object : ℕ
  pub lives : ℕ → Bool
  pub completion_queue : BlockingQueue ℕ
  pub deletion_queue : SafeQueue ℕ
  pub reactor_fd : IoHandle
  pub calls : List Call
  pub world : W
