-- ===== src/Epoll/Proactor/Reactions.antt =====
-- What the reaction to an event of epoll does: it queues one completion of the operation.
use baba_io.Base.{
  ℕ, pos, ◌≡◌, Bool, true, false, Option, none, some, arith, insert, if◌then◌else◌, ◌==◌,
}
use baba_io.Os.Codes.{ErrorCode, IoHandle, ok_code}
use baba_io.Os.Kernel.{Kernel}
use baba_io.Os.FileImpl
use baba_io.Os.SocketImpl
use baba_io.Epoll.State.{
  Service, Event, Descriptor, Strand, React, recv_react, send_react, timer_react, connect_react,
  accept_react, Complete, recved, sended, expired, connected, accepted, completes,
}
use baba_io.Epoll.Memory.{ok, with_register}
use baba_io.Epoll.Proactor.{run_react}
use baba_io.Epoll.Deletion.Completion.{enqueued}

-- The event whose reaction it is; an accept, which has a result of its own, stands apart.
abbrev pub reacts_on : React → Option ℕ
reacts_on (recv_react evt buffer size cb) = some evt
reacts_on (send_react evt buffer size cb) = some evt
reacts_on (timer_react evt cb) = some evt
reacts_on (connect_react evt cb e) = some evt
reacts_on (accept_react evt accepting cb) = none

module _ {W : Type 0} (os : Kernel W) where
  -- What an operation comes to, and the operating system afterwards, without regard to queues and
  -- locks: `live` tells whether it may still read or write at `fd`.
  abbrev pub transferred : React → (live : Bool) → IoHandle → W → Complete × W
  transferred (recv_react evt buffer size cb) true fd w =
      let (r, w') = SocketImpl.recv os fd buffer size w in (recved evt r.ec cb r.bytes, w')
  transferred (recv_react evt buffer size cb) false fd w = (recved evt ok_code cb (pos 0), w)
  transferred (send_react evt buffer size cb) true fd w =
      let (r, w') = SocketImpl.send os fd buffer size w in (sended evt r.ec cb r.bytes, w')
  transferred (send_react evt buffer size cb) false fd w = (sended evt ok_code cb (pos 0), w)
  transferred (timer_react evt cb) true fd w =
      let (r, w') = FileImpl.read os fd 0 8 w in (expired evt r.ec cb, w')
  transferred (timer_react evt cb) false fd w = (expired evt ok_code cb, w)
  transferred (connect_react evt cb e) live fd w = (connected evt e cb, w)
  transferred (accept_react evt accepting cb) live fd w = (accepted evt ok_code cb, w)

  -- What an error that the reactor reports comes to.
  abbrev pub failed : React → ErrorCode → Complete
  failed (recv_react evt buffer size cb) e = recved evt e cb (pos 0)
  failed (send_react evt buffer size cb) e = sended evt e cb (pos 0)
  failed (timer_react evt cb) e = expired evt e cb
  failed (connect_react evt cb code) e = connected evt code cb
  failed (accept_react evt accepting cb) e = accepted evt e cb

  abbrev pub outcome : React → ErrorCode → (live : Bool) → IoHandle → W → Complete × W
  outcome r e live fd w = if e == ok_code then transferred r live fd w else (failed r e, w)

  -- The event holds the completion and no reaction, and stands at the end of its strand's queue.
  abbrev pub reacted : Service W → (evt strand : ℕ) → Event → Strand → Complete → W → Service W
  reacted s evt strand v t c w =
      enqueued
        (record (with_register s
          (insert s.registrar.register evt (record v { complete = some c; react = none }))) {
            world = w;
          })
        strand t (completes evt)

  module _ (s : Service W) (evt io_desc strand : ℕ) (v : Event) (d : Descriptor) (t : Strand)
      (hv : s.registrar.register evt ≡ some v) (hd : v.descriptor ≡ some io_desc)
      (hs : s.descriptors io_desc ≡ some d) (ht : v.strand ≡ some strand)
      (hq : s.strands strand ≡ some t) where
    -- A reaction of a receive, a send, a timer or a connect never faults. It reads or writes at most once, and only if nothing is reported and
    -- the object is in scope, and queues the one completion that tells its outcome.
    pub run_react_lem :
        (r : React) (e : ErrorCode)
        → reacts_on r ≡ some evt
        → run_react os r e s
          ≡ ok (
            tt,
            reacted s evt strand v t
                (outcome r e d.in_scope d.fd s.world).0
                (outcome r e d.in_scope d.fd s.world).1,
          )
    unfolding run_react
    run_react_lem (recv_react p buffer size cb) e h = ground arith
    run_react_lem (send_react p buffer size cb) e h = ground arith
    run_react_lem (timer_react p cb) e h = ground arith
    run_react_lem (connect_react p cb code) e h = ground arith
    run_react_lem (accept_react p accepting cb) e h = cc
