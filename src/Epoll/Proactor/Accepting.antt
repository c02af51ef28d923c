-- ===== src/Epoll/Proactor/Accepting.antt =====
-- What the reaction to a connection that waits at an acceptor does.
use baba_io.Base.{ℕ, ◌≡◌, some, arith, insert, if◌then◌else◌, ◌==◌}
use baba_io.Os.Codes.{ErrorCode, ok_code}
use baba_io.Os.Kernel.{Kernel}
use baba_io.Net.SocketCalls
use baba_io.Epoll.State.{Service, Event, Descriptor, Strand, Accepting, accept_react, accepted}
use baba_io.Epoll.Memory.{ok}
use baba_io.Epoll.Proactor.{run_react}
use baba_io.Epoll.Proactor.Reactions.{reacted}

module _ {W : Type 0} (os : Kernel W) (s : Service W) (d : Descriptor) (accepting : ℕ)
    (a : Accepting) where
  -- The state once the call has been made and its results are written through the references.
  abbrev pub answered : Service W
  answered =
      let (r, w) =
        SocketCalls.accept os s.unwritten_sock s.unwritten_addr d.fd a.acceptor_ep s.world in
      record s {
        accepting =
            insert s.accepting accepting (record a { peer_fd = r.fd; peer_ep = r.endpoint });
        world = w;
      }

  abbrev pub answer : ErrorCode
  answer = (SocketCalls.accept os s.unwritten_sock s.unwritten_addr d.fd a.acceptor_ep s.world).0.ec

  module _ (evt io_desc strand : ℕ) (v : Event) (t : Strand)
      (hv : s.registrar.register evt ≡ some v) (hd : v.descriptor ≡ some io_desc)
      (hs : s.descriptors io_desc ≡ some d) (ht : v.strand ≡ some strand)
      (hq : s.strands strand ≡ some t) (ha : s.accepting accepting ≡ some a) where
    -- The reaction of an accept never faults, and queues exactly one completion. It accepts a connection
    -- only if no error is reported and the acceptor is in scope; then it stores the handle and the
    -- endpoint of the peer, and the completion carries the code of the call.
    pub run_accept_lem :
        (cb : ℕ) (e : ErrorCode)
        → run_react os (accept_react evt accepting cb) e s ≡ (
            if e == ok_code
            then (if d.in_scope
                then ok
                    (tt, reacted os answered evt strand v t (accepted evt answer cb) answered.world)
                else ok (tt, reacted os s evt strand v t (accepted evt ok_code cb) s.world))
            else ok (tt, reacted os s evt strand v t (accepted evt e cb) s.world))
    unfolding run_react
    run_accept_lem cb e = ground arith
