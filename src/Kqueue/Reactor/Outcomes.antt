-- ===== src/Kqueue/Reactor/Outcomes.antt =====
-- What a reaction comes to.
use baba_io.Base.{ℕ, ◌≡◌, ◌∙◌, refl, ap, some, [], ◌∷◌, ◌++◌, insert, ◌==ℤ◌, false}
use baba_io.Os.Codes.{ok_code, IoHandle}
use baba_io.Os.FileImpl.{IoResult}
use baba_io.Epoll.Memory.{ok, bad_function_call}
use baba_io.Kqueue.State.{
  Service, Event, Descriptor, Kqueue, Operations, React, Complete, Call, registered, recv_reacts,
  send_reacts, accept_reacts, connect_reacts, timer_reacts, recv_from_reacts, send_to_reacts,
  bytes_completes, code_completes, code_call, bytes_call,
}
use baba_io.Library.BlockingQueue
use baba_io.Kqueue.Memory.{bind, require, complete_with, load_fd, enqueue_for_completion}
use baba_io.Kqueue.Events.Recv
use baba_io.Kqueue.Events.Send
use baba_io.Kqueue.Events.Accept
use baba_io.Kqueue.Events.Connect
use baba_io.Kqueue.Events.RecvFrom
use baba_io.Kqueue.Events.SendTo
use baba_io.Kqueue.Events.Timer
use baba_io.Kqueue.Reactor.{run_react, entry}

-- The event that a reaction is of.
abbrev pub reacts_on : React → ℕ
reacts_on (recv_reacts evt buffer size cb) = evt
reacts_on (send_reacts evt buffer size cb) = evt
reacts_on (accept_reacts evt acceptor_ep peer_fd peer_ep cb) = evt
reacts_on (connect_reacts evt cb) = evt
reacts_on (timer_reacts evt cb) = evt
reacts_on (recv_from_reacts evt receiver_ep buffer size peer_ep cb) = evt
reacts_on (send_to_reacts evt buffer size peer_ep cb) = evt

abbrev bytes_outcome : {W : Type 0} → ℕ → IoResult × W → Call × W
bytes_outcome cb (r, w) = (bytes_call cb r.ec r.bytes, w)

module _ {W : Type 0} (ops : Operations W) where
  -- The call that the user is owed once the descriptor of an operation is ready: what the system says of
  -- the operation. A connection that is reported, and a timer, have succeeded.
  abbrev pub outcome : React → IoHandle → W → Call × W
  outcome (recv_reacts evt buffer size cb) fd w = bytes_outcome cb (ops.do_recv fd buffer size w)
  outcome (send_reacts evt buffer size cb) fd w = bytes_outcome cb (ops.do_send fd buffer size w)
  outcome (accept_reacts evt acceptor_ep peer_fd peer_ep cb) fd w =
      let (e, w') = ops.do_accept fd acceptor_ep peer_fd peer_ep w in (code_call cb e, w')
  outcome (connect_reacts evt cb) fd w = (code_call cb ok_code, w)
  outcome (timer_reacts evt cb) fd w = (code_call cb ok_code, w)
  outcome (recv_from_reacts evt receiver_ep buffer size peer_ep cb) fd w =
      bytes_outcome cb (ops.do_recv_from fd receiver_ep buffer size peer_ep w)
  outcome (send_to_reacts evt buffer size peer_ep cb) fd w =
      bytes_outcome cb (ops.do_send_to fd buffer size peer_ep w)

-- The completion that makes a call.
abbrev pub makes : Call → Complete
makes (code_call cb e) = code_completes e cb
makes (bytes_call cb e bytes) = bytes_completes e bytes cb

-- The event has its completion, and is queued with it.
abbrev pub completing : {W : Type 0} → Service W → ℕ → Event → Complete → W → Service W
completing s p v c w = record s {
  register = insert s.register p (record v { complete = some c });
  completion_queue = record (s.completion_queue) { queue = s.completion_queue.queue ++ p ∷ [] };
  world = w;
}

module _ {W : Type 0} (s : Service W) (p io_desc : ℕ) (v : Event) (d : Descriptor)
    (hp : s.register p ≡ some v) where
  pub load_fd_lem :
      v.descriptor ≡ some io_desc → s.descriptors io_desc ≡ some d → load_fd p s ≡ ok (d.fd, s)
  load_fd_lem hd hs = simp (hp, hd, hs) refl

  pub completes :
      (c : Complete)
      → (w : W) → complete_with p c (record s { world = w }) ≡ ok (tt, completing s p v c w)
  unfolding complete_with enqueue_for_completion BlockingQueue.enqueue
  completes c w = simp hp refl

module _ {W : Type 0} (kq : Kqueue W) (ops : Operations W) (s : Service W) (p io_desc : ℕ)
    (v : Event) (d : Descriptor) (hp : s.register p ≡ some v) (hd : v.descriptor ≡ some io_desc)
    (hs : s.descriptors io_desc ≡ some d) where
  abbrev done : React → Service W
  done r = completing s p v (makes (outcome ops r d.fd s.world).0) (outcome ops r d.fd s.world).1

  loads : load_fd p s ≡ ok (d.fd, s)
  loads = load_fd_lem s p io_desc v d hp hd hs

  finish :
      (c : Complete)
      → (w : W) → complete_with p c (record s { world = w }) ≡ ok (tt, completing s p v c w)
  finish = completes s p io_desc v d hp

  run_reacts : (r : React) → reacts_on r ≡ p → run_react kq ops r s ≡ ok (tt, done r)
  unfolding run_react Recv.react Send.react Accept.react Connect.react Timer.react RecvFrom.react
      SendTo.react
  run_reacts (recv_reacts evt buffer size cb) h = simp (h, loads) (finish _ _)
  run_reacts (send_reacts evt buffer size cb) h = simp (h, loads) (finish _ _)
  run_reacts (accept_reacts evt acceptor_ep peer_fd peer_ep cb) h = simp (h, loads) (finish _ _)
  run_reacts (connect_reacts evt cb) h = simp h (finish _ _)
  run_reacts (timer_reacts evt cb) h = simp h (finish _ _)
  run_reacts (recv_from_reacts evt receiver_ep buffer size peer_ep cb) h =
      simp (h, loads) (finish _ _)
  run_reacts (send_to_reacts evt buffer size peer_ep cb) h = simp (h, loads) (finish _ _)

  -- A report of an event runs its reaction, unless its handle is that of the self pipe.
  pub entry-outcome :
      (r : React)
      → v.react ≡ some r
      → reacts_on r ≡ p
      → (d.fd ==ℤ s.interrupter_fd) ≡ false
      → entry kq ops (registered p) s ≡ ok (tt, done r)
  unfolding entry
  entry-outcome r hr mine other = simp loads (
      simp (other, hp)
        (ap (λ t. bind (require bad_function_call t s) (run_react kq ops)) hr ∙ run_reacts r mine))
