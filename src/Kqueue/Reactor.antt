-- ===== src/Kqueue/Reactor.antt =====
-- detail/os/reactor/kqueue/kqueue_reactor.cpp, and what runs the closures of an event.
pub mod Outcomes
use baba_io.Base.{
  ℕ, zero, suc, ℤ, pos, negsuc, ◌==◌, ◌==ℤ◌, not, Option, none, some, List, [], ◌∷◌, if◌then◌else◌,
}
use baba_io.Os.Codes.{ErrorCode, ok_code, IoHandle}
use baba_io.Epoll.Memory.{ok, bad_function_call, assertion_failed}
use baba_io.Kqueue.State.{
  Service, Kqueue, Operations, Initiate, React, Complete, Udata, self_pipe, registered,
  recv_initiates, send_initiates, accept_initiates, recv_from_initiates, send_to_initiates,
  connect_initiates, timer_initiates, final_initiates, recv_reacts, send_reacts, accept_reacts,
  connect_reacts, timer_reacts, recv_from_reacts, send_to_reacts, bytes_completes, code_completes,
  final_completes, code_call, bytes_call,
}
use baba_io.Kqueue.Memory.{M, pure, fail, ◌>>=◌, ◌>>◌, require, lift, call, load_event, load_fd}
use baba_io.Kqueue.Impl
use baba_io.Kqueue.Events
use baba_io.Kqueue.Events.Recv
use baba_io.Kqueue.Events.Send
use baba_io.Kqueue.Events.Accept
use baba_io.Kqueue.Events.Connect
use baba_io.Kqueue.Events.RecvFrom
use baba_io.Kqueue.Events.SendTo
use baba_io.Kqueue.Events.Timer

-- MAX_KQUEUE_EVENTS
abbrev pub max_kqueue_events : ℕ
max_kqueue_events = 100

module _ {W : Type 0} (kq : Kqueue W) (ops : Operations W) where
  unfoldable pub run_initiate : Initiate → IoHandle → M W (Unit {0})
  unfolding Recv.initiate Send.initiate Accept.initiate Connect.initiate RecvFrom.initiate
      SendTo.initiate Timer.initiate Events.initiate_final
  run_initiate (recv_initiates evt cb) fd = Recv.initiate kq evt cb fd
  run_initiate (send_initiates evt cb) fd = Send.initiate kq evt cb fd
  run_initiate (accept_initiates evt cb) fd = Accept.initiate kq evt cb fd
  run_initiate (recv_from_initiates evt cb) fd = RecvFrom.initiate kq evt cb fd
  run_initiate (send_to_initiates evt cb) fd = SendTo.initiate kq evt cb fd
  run_initiate (connect_initiates evt peer_ep cb) fd = Connect.initiate kq ops evt peer_ep cb fd
  run_initiate (timer_initiates evt timeout_ms cb) fd = Timer.initiate kq evt timeout_ms cb fd
  run_initiate (final_initiates evt final_evt) fd = Events.initiate_final evt final_evt

  unfoldable pub run_react : React → M W (Unit {0})
  unfolding Recv.react Send.react Accept.react Connect.react RecvFrom.react SendTo.react Timer.react
  run_react (recv_reacts evt buffer size cb) = Recv.react ops evt buffer size cb
  run_react (send_reacts evt buffer size cb) = Send.react ops evt buffer size cb
  run_react (accept_reacts evt acceptor_ep peer_fd peer_ep cb) =
      Accept.react ops evt acceptor_ep peer_fd peer_ep cb
  run_react (connect_reacts evt cb) = Connect.react evt cb
  run_react (timer_reacts evt cb) = Timer.react evt cb
  run_react (recv_from_reacts evt receiver_ep buffer size peer_ep cb) =
      RecvFrom.react ops evt receiver_ep buffer size peer_ep cb
  run_react (send_to_reacts evt buffer size peer_ep cb) =
      SendTo.react ops evt buffer size peer_ep cb

  unfoldable pub run_complete : Complete → M W (Unit {0})
  unfolding Events.complete_final
  run_complete (bytes_completes e bytes cb) = call (bytes_call cb e bytes)
  run_complete (code_completes e cb) = call (code_call cb e)
  run_complete (final_completes evt final_evt) = Events.complete_final kq evt final_evt

  -- `initiate`; the assertion holds of a key.
  unfoldable pub initiate : (evt : ℕ) → M W (Unit {0})
  unfolding run_initiate
  initiate evt s =
      (do e ← load_event evt; f ← require bad_function_call e.initiate; run_initiate f s.reactor_fd)
        s

  -- An entry of the list. The self pipe has no reaction, and is not read.
  unfoldable pub entry : Udata → M W (Unit {0})
  unfolding run_react
  entry self_pipe s =
      if s.interrupter.read_end ==ℤ s.interrupter_fd then ok (tt, s) else fail bad_function_call s
  entry (registered evt) s =
      (do
        fd ← load_fd evt
        if fd ==ℤ s.interrupter_fd
            then pure tt
            else (do e ← load_event evt; r ← require bad_function_call e.react; run_react r))
        s

  -- The first entries of the list, as many as the count says.
  unfoldable pub entries : ℕ → List Udata → M W (Unit {0})
  unfolding entry
  entries zero evts = pure tt
  entries (suc n) [] = pure tt
  entries (suc n) (evt ∷ evts) = entry evt >> entries n evts

  abbrev count : ℤ → ℕ
  count (pos n) = n
  count (negsuc n) = 0

  unfoldable pub wait : M W ErrorCode
  unfolding Impl.wait entries
  wait s =
      (do
        (r, evts) ← lift (λ w.
            let (r, evts, w') = Impl.wait kq s.reactor_fd max_kqueue_events w in ((r, evts), w'))
        if r.ec == ok_code
            then (do entries (count r.ready_io_count) evts; pure ok_code)
            else pure r.ec)
        s
