-- ===== src/Iocp/Events.antt =====
-- detail/os/reactor/iocp/events/iocp_timer.cpp, and the closures that an event has.
use baba_io.Base.{ℕ, ◌==◌, not, true, Option, some, if◌then◌else◌}
use baba_io.Library.SafeQueue
use baba_io.Library.BlockingQueue
use baba_io.Os.Codes.{ErrorCode, ok_code, IoHandle}
use baba_io.Epoll.Memory.{bad_function_call, assertion_failed, null_pointer, dangling_descriptor}
use baba_io.Iocp.State.{React, Complete, timer_reacts, code_completes, final_completes}
use baba_io.Iocp.Memory.{
  M, pure, fail, ◌>>=◌, ◌>>◌, update, require, lift, call, load_event, modify_event, take, give,
}

-- `evt->enqueue_for_completion(evt)`: the function of the service, if the event has it.
unfoldable pub enqueue_for_completion : {W : Type 0} → (evt : ℕ) → M W (Unit {0})
unfolding BlockingQueue.enqueue
enqueue_for_completion evt = do
  e ← load_event evt
  if e.enqueues
      then update
          (λ s. record s { completion_queue = BlockingQueue.enqueue evt s.completion_queue })
      else fail bad_function_call

-- `_enqueue_for_deletion` of the service.
unfoldable pub enqueue_for_deletion : {W : Type 0} → (evt : ℕ) → M W (Unit {0})
unfolding SafeQueue.enqueue
enqueue_for_deletion evt =
    update (λ s. record s { deletion_queue = SafeQueue.enqueue evt s.deletion_queue })

-- The constructor, given the scope of the user or a null pointer, and the function that opens the timer:
-- the key of the event.
unfoldable pub construct :
    {W : Type 0} → (scope io_desc : Option ℕ) → (open_timer : ℕ → M W (Unit {0})) → M W ℕ
unfolding take
construct scope io_desc open_timer = do
  evt ← take
  l ← require assertion_failed scope
  d ← require assertion_failed io_desc
  modify_event evt (λ e. record e { scope = some l })
  modify_event evt (λ e. record e { descriptor = some d })
  modify_event evt (λ e. record e { enqueues = true })
  open_timer evt
  pure evt

-- The destructor, given the function that closes the timer.
unfoldable pub destroy :
    {W : Type 0} → (self : ℕ) → (close_timer : ℕ → M W (Unit {0})) → M W (Unit {0})
unfolding take enqueue_for_deletion
destroy self close_timer = do
  close_timer self
  final_evt ← take
  modify_event final_evt (λ e. record e { complete = some (final_completes self final_evt) })
  enqueue_for_deletion final_evt

-- The closure `react`.
unfoldable pub react : {W : Type 0} → (evt cb : ℕ) → M W (Unit {0})
unfolding enqueue_for_completion
react evt cb = do
  modify_event evt (λ e. record e { complete = some (code_completes ok_code cb) })
  enqueue_for_completion evt

-- The handle of the event's descriptor.
abbrev load_fd : {W : Type 0} → ℕ → M W IoHandle
load_fd evt = do
  e ← load_event evt
  d ← require null_pointer e.descriptor
  λ s. require dangling_descriptor (s.descriptors d) s

-- `timeout`, given the function that sets the timer. The mutex makes it one step, and the assertion holds
-- of a callback.
unfoldable pub timeout :
    {W : Type 0}
    → (self : ℕ) → (init_timer : IoHandle → ℕ → W → ErrorCode × W) → (timeout_ms cb : ℕ)
    → M W (Unit {0})
unfolding enqueue_for_completion
timeout self init_timer timeout_ms cb = do
  modify_event self (λ e. record e { react = some (timer_reacts self cb) })
  fd ← load_fd self
  ec ← lift (init_timer fd timeout_ms)
  if not (ec == ok_code)
      then (do
        modify_event self (λ e. record e { complete = some (code_completes ec cb) })
        enqueue_for_completion self)
      else pure tt

-- The closure `complete` of a final event.
unfoldable pub complete_final : {W : Type 0} → (evt final_evt : ℕ) → M W (Unit {0})
unfolding give
complete_final evt final_evt = do give evt; give final_evt

unfoldable pub run_react : {W : Type 0} → React → M W (Unit {0})
unfolding react
run_react (timer_reacts evt cb) = react evt cb

unfoldable pub run_complete : {W : Type 0} → Complete → M W (Unit {0})
unfolding complete_final
run_complete (code_completes e cb) = call (record { cb = cb; code = e })
run_complete (final_completes evt final_evt) = complete_final evt final_evt
