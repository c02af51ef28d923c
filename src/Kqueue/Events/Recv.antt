-- ===== src/Kqueue/Events/Recv.antt =====
-- detail/os/reactor/kqueue/events/kqueue_recv.cpp.
use baba_io.Base.{ℕ, ℤ, pos, Option, some}
use baba_io.Os.Codes.{IoHandle}
use baba_io.Kqueue.State.{
  Kqueue, Operations, bytes_completes, evfilt_read, recv_initiates, recv_reacts,
}
use baba_io.Kqueue.Memory.{M, ◌>>=◌, ◌>>◌, lift, load_fd, modify_event, complete_with}
use baba_io.Kqueue.Events

unfoldable pub construct : {W : Type 0} → (scope io_desc : Option ℕ) → M W ℕ
unfolding Events.construct
construct scope io_desc = Events.construct scope io_desc

module _ {W : Type 0} (kq : Kqueue W) where
  -- The closure `initiate`.
  unfoldable pub initiate : (evt cb : ℕ) → IoHandle → M W (Unit {0})
  unfolding Events.initiate_on
  initiate evt cb kqueue_fd =
      Events.initiate_on kq evfilt_read 0 0 evt (λ ec. bytes_completes ec (pos 0) cb) kqueue_fd

module _ {W : Type 0} (ops : Operations W) where
  -- The closure `react`.
  unfoldable pub react : (evt buffer : ℕ) → (size : ℤ) → (cb : ℕ) → M W (Unit {0})
  unfolding complete_with
  react evt buffer size cb = do
    fd ← load_fd evt
    r ← lift (ops.do_recv fd buffer size)
    complete_with evt (bytes_completes r.ec r.bytes cb)

module _ {W : Type 0} (kq : Kqueue W) where
  unfoldable pub destroy : (self : ℕ) → M W (Unit {0})
  unfolding Events.destroy
  destroy self = Events.destroy kq self

  unfoldable pub recv : (self : ℕ) → (buffer : ℕ) → (size : ℤ) → (cb : ℕ) → M W (Unit {0})
  unfolding Events.enqueue_for_initiation
  recv self buffer size cb = do
    modify_event self (λ e. record e { initiate = some (recv_initiates self cb) })
    modify_event self (λ e. record e { react = some (recv_reacts self buffer size cb) })
    Events.enqueue_for_initiation kq self

  -- The same operation once more, with the closures that are there.
  unfoldable pub recv_again : (self : ℕ) → M W (Unit {0})
  unfolding Events.enqueue_for_initiation
  recv_again self = Events.enqueue_for_initiation kq self
