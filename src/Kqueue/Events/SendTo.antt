-- ===== src/Kqueue/Events/SendTo.antt =====
-- detail/os/reactor/kqueue/events/kqueue_send_to.cpp.
use baba_io.Base.{ℕ, ℤ, pos, Option, some}
use baba_io.Os.Codes.{IoHandle}
use baba_io.Kqueue.State.{
  Kqueue, Operations, bytes_completes, evfilt_write, send_to_initiates, send_to_reacts,
}
use baba_io.Kqueue.Memory.{M, ◌>>=◌, ◌>>◌, lift, load_fd, modify_event, complete_with}
use baba_io.Kqueue.Events

unfoldable pub construct : {W : Type 0} → (scope io_desc : Option ℕ) → M W ℕ
unfolding Events.construct
construct scope io_desc = Events.construct scope io_desc

module _ {W : Type 0} (kq : Kqueue W) where
  -- The closure `initiate`.
  unfoldable pub initiate : (evt cb : ℕ) → IoHandle → M W (Unit {0})
  unfolding Events.initiate_on
  initiate evt cb kqueue_fd =
      Events.initiate_on kq evfilt_write 0 0 evt (λ ec. bytes_completes ec (pos 0) cb) kqueue_fd

module _ {W : Type 0} (ops : Operations W) where
  -- The closure `react`.
  unfoldable pub react : (evt buffer : ℕ) → (size : ℤ) → (peer_ep : ℕ) → (cb : ℕ) → M W (Unit {0})
  unfolding complete_with
  react evt buffer size peer_ep cb = do
    fd ← load_fd evt
    r ← lift (ops.do_send_to fd buffer size peer_ep)
    complete_with evt (bytes_completes r.ec r.bytes cb)

module _ {W : Type 0} (kq : Kqueue W) where
  unfoldable pub destroy : (self : ℕ) → M W (Unit {0})
  unfolding Events.destroy
  destroy self = Events.destroy kq self

  unfoldable pub send_to :
      (self : ℕ) → (buffer : ℕ) → (size : ℤ) → (peer_ep : ℕ) → (cb : ℕ) → M W (Unit {0})
  unfolding Events.enqueue_for_initiation
  send_to self buffer size peer_ep cb = do
    modify_event self (λ e. record e { initiate = some (send_to_initiates self cb) })
    modify_event self (λ e. record e { react = some (send_to_reacts self buffer size peer_ep cb) })
    Events.enqueue_for_initiation kq self

  -- The same operation once more, with the closures that are there.
  unfoldable pub send_to_again : (self : ℕ) → M W (Unit {0})
  unfolding Events.enqueue_for_initiation
  send_to_again self = Events.enqueue_for_initiation kq self
