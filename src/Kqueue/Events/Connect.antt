-- ===== src/Kqueue/Events/Connect.antt =====
-- detail/os/reactor/kqueue/events/kqueue_connect.cpp.
use baba_io.Base.{ℕ, ◌==◌, not, Option, some, if◌then◌else◌}
use baba_io.Os.Codes.{ok_code, IoHandle}
use baba_io.Kqueue.State.{
  Kqueue, Operations, code_completes, evfilt_write, connect_initiates, connect_reacts,
}
use baba_io.Kqueue.Memory.{M, pure, ◌>>=◌, ◌>>◌, lift, load_fd, modify_event, complete_with}
use baba_io.Kqueue.Events

unfoldable pub construct : {W : Type 0} → (scope io_desc : Option ℕ) → M W ℕ
unfolding Events.construct
construct scope io_desc = Events.construct scope io_desc

module _ {W : Type 0} (kq : Kqueue W) (ops : Operations W) where
  -- The closure `initiate`: the socket is registered first, and is writable once it is connected.
  unfoldable pub initiate : (evt peer_ep cb : ℕ) → IoHandle → M W (Unit {0})
  unfolding Events.register_to_reactor complete_with
  initiate evt peer_ep cb kqueue_fd = do
    ec ← Events.register_to_reactor kq kqueue_fd evt evfilt_write 0 0
    e ← if ec == ok_code then (do fd ← load_fd evt; lift (ops.do_connect fd peer_ep)) else pure ec
    if not (e == ok_code) then complete_with evt (code_completes e cb) else pure tt

-- The closure `react`.
unfoldable pub react : {W : Type 0} → (evt cb : ℕ) → M W (Unit {0})
unfolding complete_with
react evt cb = complete_with evt (code_completes ok_code cb)

module _ {W : Type 0} (kq : Kqueue W) where
  unfoldable pub destroy : (self : ℕ) → M W (Unit {0})
  unfolding Events.destroy
  destroy self = Events.destroy kq self

  unfoldable pub connect : (self : ℕ) → (peer_ep : ℕ) → (cb : ℕ) → M W (Unit {0})
  unfolding Events.enqueue_for_initiation
  connect self peer_ep cb = do
    modify_event self (λ e. record e { initiate = some (connect_initiates self peer_ep cb) })
    modify_event self (λ e. record e { react = some (connect_reacts self cb) })
    Events.enqueue_for_initiation kq self
