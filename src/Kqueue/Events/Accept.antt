-- ===== src/Kqueue/Events/Accept.antt =====
-- detail/os/reactor/kqueue/events/kqueue_accept.cpp.
use baba_io.Base.{ℕ, Option, some}
use baba_io.Os.Codes.{IoHandle}
use baba_io.Kqueue.State.{
  Kqueue, Operations, code_completes, evfilt_read, accept_initiates, accept_reacts,
}
use baba_io.Kqueue.Memory.{M, ◌>>=◌, ◌>>◌, lift, load_fd, modify_event, complete_with}
use baba_io.Kqueue.Events

unfoldable pub construct : {W : Type 0} → (scope io_desc : Option ℕ) → M W ℕ
unfolding Events.construct
construct scope io_desc = Events.construct scope io_desc

module _ {W : Type 0} (kq : Kqueue W) where
  -- The closure `initiate`.
  unfoldable pub initiate : (evt cb : ℕ) → IoHandle → M W (Unit {0})
  unfolding Events.initiate_on
  initiate evt cb kqueue_fd =
      Events.initiate_on kq evfilt_read 0 0 evt (λ ec. code_completes ec cb) kqueue_fd

module _ {W : Type 0} (ops : Operations W) where
  -- The closure `react`.
  unfoldable pub react : (evt acceptor_ep peer_fd peer_ep cb : ℕ) → M W (Unit {0})
  unfolding complete_with
  react evt acceptor_ep peer_fd peer_ep cb = do
    fd ← load_fd evt
    ec ← lift (ops.do_accept fd acceptor_ep peer_fd peer_ep)
    complete_with evt (code_completes ec cb)

module _ {W : Type 0} (kq : Kqueue W) where
  unfoldable pub destroy : (self : ℕ) → M W (Unit {0})
  unfolding Events.destroy
  destroy self = Events.destroy kq self

  unfoldable pub accept : (self : ℕ) → (acceptor_ep peer_fd peer_ep : ℕ) → (cb : ℕ) → M W (Unit {0})
  unfolding Events.enqueue_for_initiation
  accept self acceptor_ep peer_fd peer_ep cb = do
    modify_event self (λ e. record e { initiate = some (accept_initiates self cb) })
    modify_event self
        (λ e. record e { react = some (accept_reacts self acceptor_ep peer_fd peer_ep cb) })
    Events.enqueue_for_initiation kq self

  -- The same operation once more, with the closures that are there.
  unfoldable pub accept_again : (self : ℕ) → M W (Unit {0})
  unfolding Events.enqueue_for_initiation
  accept_again self = Events.enqueue_for_initiation kq self
