-- ===== src/Kqueue/Service/Requests.antt =====
-- The operations that users ask for, from the request to the call, for all kinds but a connection.
use baba_io.Base.{
  ℕ, ℤ, suc, pos, ◌==ℤ◌, ◌≡◌, ◌∙◌, refl, ap, some, List, [], ◌∷◌, ◌++◌, insert, false, insert_self,
  insert-insert, key_same, minus_one,
}
use baba_io.Library.SafeQueue
use baba_io.Os.Kernel.{Ret}
use baba_io.Epoll.Memory.{ok}
use baba_io.Kqueue.State.{
  Service, Event, Descriptor, Kqueue, Operations, Udata, registered, Initiate, React, evfilt_read,
  evfilt_write, recv_initiates, send_initiates, accept_initiates, recv_from_initiates,
  send_to_initiates, timer_initiates, recv_reacts, send_reacts, accept_reacts, recv_from_reacts,
  send_to_reacts, timer_reacts,
}
use baba_io.Kqueue.Memory.{M, ◌>>◌, modify_event}
use baba_io.Kqueue.Interrupter
use baba_io.Kqueue.Events
use baba_io.Kqueue.Events.Recv
use baba_io.Kqueue.Events.Send
use baba_io.Kqueue.Events.Accept
use baba_io.Kqueue.Events.RecvFrom
use baba_io.Kqueue.Events.SendTo
use baba_io.Kqueue.Events.Timer
use baba_io.Kqueue.Reactor.{max_kqueue_events}
use baba_io.Kqueue.Reactor.Outcomes.{outcome, reacts_on, entry-outcome}
use baba_io.Kqueue.Service.{process_completion_queue, reactor_round}
use baba_io.Kqueue.Service.Initiations.{
  Arming, Asks, bytes_arming, accept_arming, timer_arming, recv_asks, send_asks, accept_asks,
  recv_from_asks, send_to_asks, timer_asks, first, asked, arms, initiates_on,
}
use baba_io.Kqueue.Service.Reports.{called, completed_call, wait_one}

-- What a user asks of an object, with the function to call.
pub data Request : Type 0 where
  recv_requests send_requests : (buffer : ℕ) → (size : ℤ) → (cb : ℕ) → Request
  accept_requests : (acceptor_ep peer_fd peer_ep cb : ℕ) → Request
  recv_from_requests : (receiver_ep buffer : ℕ) → (size : ℤ) → (peer_ep cb : ℕ) → Request
  send_to_requests : (buffer : ℕ) → (size : ℤ) → (peer_ep cb : ℕ) → Request
  timeout_requests : (timeout_ms cb : ℕ) → Request

module _ {W : Type 0} (kq : Kqueue W) (p : ℕ) where
  abbrev pub requests : Request → M W (Unit {0})
  requests (recv_requests buffer size cb) = Recv.recv kq p buffer size cb
  requests (send_requests buffer size cb) = Send.send kq p buffer size cb
  requests (accept_requests acceptor_ep peer_fd peer_ep cb) =
      Accept.accept kq p acceptor_ep peer_fd peer_ep cb
  requests (recv_from_requests receiver_ep buffer size peer_ep cb) =
      RecvFrom.recv_from kq p receiver_ep buffer size peer_ep cb
  requests (send_to_requests buffer size peer_ep cb) = SendTo.send_to kq p buffer size peer_ep cb
  requests (timeout_requests timeout_ms cb) = Timer.timeout kq p timeout_ms cb

  -- What the operations have in common.
  abbrev storing : Initiate → React → M W (Unit {0})
  storing f r = do
    modify_event p (λ e. record e { initiate = some f })
    modify_event p (λ e. record e { react = some r })
    Events.enqueue_for_initiation kq p

module _ (p : ℕ) where
  abbrev pub initiation : Request → Initiate
  initiation (recv_requests buffer size cb) = recv_initiates p cb
  initiation (send_requests buffer size cb) = send_initiates p cb
  initiation (accept_requests acceptor_ep peer_fd peer_ep cb) = accept_initiates p cb
  initiation (recv_from_requests receiver_ep buffer size peer_ep cb) = recv_from_initiates p cb
  initiation (send_to_requests buffer size peer_ep cb) = send_to_initiates p cb
  initiation (timeout_requests timeout_ms cb) = timer_initiates p timeout_ms cb

  abbrev pub reaction : Request → React
  reaction (recv_requests buffer size cb) = recv_reacts p buffer size cb
  reaction (send_requests buffer size cb) = send_reacts p buffer size cb
  reaction (accept_requests acceptor_ep peer_fd peer_ep cb) =
      accept_reacts p acceptor_ep peer_fd peer_ep cb
  reaction (recv_from_requests receiver_ep buffer size peer_ep cb) =
      recv_from_reacts p receiver_ep buffer size peer_ep cb
  reaction (send_to_requests buffer size peer_ep cb) = send_to_reacts p buffer size peer_ep cb
  reaction (timeout_requests timeout_ms cb) = timer_reacts p cb

abbrev pub arming : Request → Arming
arming (recv_requests buffer size cb) = bytes_arming evfilt_read cb
arming (send_requests buffer size cb) = bytes_arming evfilt_write cb
arming (accept_requests acceptor_ep peer_fd peer_ep cb) = accept_arming cb
arming (recv_from_requests receiver_ep buffer size peer_ep cb) = bytes_arming evfilt_read cb
arming (send_to_requests buffer size peer_ep cb) = bytes_arming evfilt_write cb
arming (timeout_requests timeout_ms cb) = timer_arming timeout_ms cb

asks : (p : ℕ) → (q : Request) → Asks p (initiation p q) (arming q)
asks p (recv_requests buffer size cb) = recv_asks cb
asks p (send_requests buffer size cb) = send_asks cb
asks p (accept_requests acceptor_ep peer_fd peer_ep cb) = accept_asks cb
asks p (recv_from_requests receiver_ep buffer size peer_ep cb) = recv_from_asks cb
asks p (send_to_requests buffer size peer_ep cb) = send_to_asks cb
asks p (timeout_requests timeout_ms cb) = timer_asks timeout_ms cb

own : (p : ℕ) → (q : Request) → reacts_on (reaction p q) ≡ p
own p (recv_requests buffer size cb) = refl
own p (send_requests buffer size cb) = refl
own p (accept_requests acceptor_ep peer_fd peer_ep cb) = refl
own p (recv_from_requests receiver_ep buffer size peer_ep cb) = refl
own p (send_to_requests buffer size peer_ep cb) = refl
own p (timeout_requests timeout_ms cb) = refl

module _ {W : Type 0} (kq : Kqueue W) (p : ℕ) where
  stores : (q : Request) → requests kq p q ≡ storing kq p (initiation p q) (reaction p q)
  unfolding Recv.recv Send.send Accept.accept RecvFrom.recv_from SendTo.send_to Timer.timeout
      Events.enqueue_for_initiation
  stores (recv_requests buffer size cb) = refl
  stores (send_requests buffer size cb) = refl
  stores (accept_requests acceptor_ep peer_fd peer_ep cb) = refl
  stores (recv_from_requests receiver_ep buffer size peer_ep cb) = refl
  stores (send_to_requests buffer size peer_ep cb) = refl
  stores (timeout_requests timeout_ms cb) = refl

module _ (v : Event) (p : ℕ) (q : Request) where
  -- The event of an operation in progress.
  abbrev pub asking : Event
  asking = record v { initiate = some (initiation p q); react = some (reaction p q) }

module _ {W : Type 0} (kq : Kqueue W) (s : Service W) (p : ℕ) (v : Event) (q : Request) where
  -- The request is stored and queued, and the reactor is woken.
  abbrev pub requested : Service W
  requested = record s {
    register = insert s.register p (asking v p q);
    initiation_queue = record { queue = s.initiation_queue.queue ++ p ∷ [] };
    world = (kq.os.write s.interrupter.write_end 0 1 s.world).1;
  }

  request-requested :
      s.register p ≡ some v
      → ((kq.os.write s.interrupter.write_end 0 1 s.world).0.value ==ℤ minus_one) ≡ false
      → requests kq p q s ≡ ok (tt, requested)
  unfolding Events.enqueue_for_initiation Interrupter.interrupt SafeQueue.enqueue
  request-requested hp wrote =
      ap (λ f. f s) (stores kq p q)
      ∙ simp hp (
          simp (key_same p) (
            simp wrote (
              ap (λ t. ok (tt, record requested { register = t }))
                (insert-insert s.register p _ _))))

module _ {W : Type 0} (kq : Kqueue W) (s : Service W) (p : ℕ) (v : Event) (d : Descriptor)
    (q : Request) where
  -- The request is taken from the queue.
  abbrev pub taken : Service W
  taken = record (requested kq s p v q) { initiation_queue = record { queue = [] } }

  abbrev pub answer : Ret × W
  answer = asked kq taken p d (arming q)

module _ {W : Type 0} (kq : Kqueue W) (ops : Operations W) (s : Service W) (p io_desc : ℕ)
    (v : Event) (d : Descriptor) (q : Request) (ret : Ret) (evts : List Udata) (w : W) where
  -- The service once the operation is over.
  abbrev pub served : Service W
  served =
      called (taken kq s p v d q) p (asking v p q) (outcome ops (reaction p q) d.fd w).0
        (outcome ops (reaction p q) d.fd w).1

  -- A user asks an object, in a service with nothing queued, for any operation but a connection: its event
  -- is registered, with a descriptor whose handle is not that of the self pipe, the self pipe is written
  -- to, the kernel takes the event with the filter and the time of the operation, and then reports it.
  -- After a round of the reactor and a pass over the completion queue the user has been called once,
  -- with what the operation's call of the system returns (a timer with success), whether or not the scope of
  -- the event has ended; both queues are empty, and nothing else has changed but the closures of the event and the state of the system.
  pub request-served :
      s.register p ≡ some v
      → v.descriptor ≡ some io_desc
      → s.descriptors io_desc ≡ some d
      → (d.fd ==ℤ s.interrupter_fd) ≡ false
      → s.initiation_queue.queue ≡ []
      → s.completion_queue.queue ≡ []
      → ((kq.os.write s.interrupter.write_end 0 1 s.world).0.value ==ℤ minus_one) ≡ false
      → ((answer kq s p v d q).0.value ==ℤ minus_one) ≡ false
      → kq.kevent_wait s.reactor_fd max_kqueue_events (answer kq s p v d q).1
        ≡ (ret, registered p ∷ evts, w)
      → ret.value ≡ pos 1
      → (m n : ℕ)
      → (requests kq p q
            >> reactor_round kq ops (suc (suc m))
            >> process_completion_queue kq ops (suc (suc n)))
          s
        ≡ ok (tt, served)
  unfolding reactor_round
  request-served hp hd hs apart hq hc wrote added told ready m n =
      let held : (requested kq s p v q).register p ≡ some (asking v p q) =
        insert_self s.register p (asking v p q) in
      let armed = record (taken kq s p v d q) { world = (answer kq s p v d q).1 } in
      let waited = record armed { world = w } in
      let begins =
        first kq ops (requested kq s p v q) p (asking v p q) (initiation p q) held refl
          (ap (λ l. l ++ p ∷ []) hq) armed
          (initiates_on kq ops (taken kq s p v d q) p s.reactor_fd (initiation p q) (arming q)
              (asks p q)
            ∙ arms kq (taken kq s p v d q) p io_desc (asking v p q) d (arming q) held hd hs added)
          refl m in
      let reports =
        entry-outcome kq ops waited p io_desc (asking v p q) d held hd hs (reaction p q) refl
          (own p q) apart in
      simp (request-requested kq s p v q hp wrote) (
        simp begins (
          simp (wait_one kq ops armed p evts ret w told ready _ reports) (
            completed_call kq ops waited p (asking v p q) (outcome ops (reaction p q) d.fd w).0
              (outcome ops (reaction p q) d.fd w).1 hc n)))
