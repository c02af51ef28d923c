-- ===== src/Epoll/Arm/Rollback.antt =====
-- A receive that cannot be armed leaves its bit in the mask of the descriptor.
use baba_io.Base.{
  ℕ, suc, ℤ, pos, ◌≡◌, ◌≢◌, refl, true, none, some, arith, insert, insert_self, [], Bool-cases, inl,
  inr, ◌==◌,
}
use baba_io.Os.Codes.{ErrorCode, ok_code}
use baba_io.Os.Kernel.{Kernel}
use baba_io.Os.EpollImpl
use baba_io.Epoll.State.{Service, Event, Descriptor, Strand, React, send_react, recved, completes}
use baba_io.Epoll.Memory.{ok, fault, bad_function_call, with_register, ◌>>◌}
use baba_io.Epoll.Mask.{has_in, has_out, set_in, set_out}
use baba_io.Epoll.Arm.{init_read, init_write}
use baba_io.Epoll.Events.Recv.{recv}
use baba_io.Epoll.Deletion.Completion.{enqueued}
use baba_io.Epoll.Proactor.{run_reactor_task, process_reactor_queue}
use baba_io.Library.BlockingQueue
use baba_io.Epoll.Reactor.{ready_io}
use baba_io.Epoll.Reactor.Rounds.{
  ready_io_lem, after_reports, after_errors, remaining, remasked, rearmed,
}
use baba_io.Epoll.Events.Send.{send}

module _ {W : Type 0} (os : Kernel W) (x : Service W) (events io_desc evt other : ℕ)
    (d : Descriptor) (v e : Event) (run : x.run ≡ true) (idle : x.reactor_tasks.queue ≡ [])
    (held : x.descriptors io_desc ≡ some d) (woken : d.read_event ≡ some evt)
    (empty : v.react ≡ none) (apart : evt ≢ other) where
  abbrev active : Event
  active = record v { has_active_event = true }

  kept :
      (u : Event)
      → insert
          (insert x.registrar.register evt active)
          other
          (record u { has_active_event = true })
          evt
        ≡ some active
  kept u = ground arith

  -- What is queued for input is the first task, whether or not output is reported too,
  reports-fault :
      has_in events ≡ true
      → (m : ℕ)
      → process_reactor_queue os (suc m) (after_reports events io_desc evt other v e x)
        ≡ fault bad_function_call
  unfolding process_reactor_queue BlockingQueue.dequeue run_reactor_task
  reports-fault has m = elim (Bool-cases (has_out events)) [
    | inl o ↦ rw (has, o, idle, run, held, woken, kept e, empty)
    | inr o ↦
        rw (has, o, idle, run, held, woken, insert_self x.registrar.register evt active, empty)
  ]

  -- and so is the error of arming again.
  errors-fault :
      (m : ℕ)
      → process_reactor_queue os (suc m) (after_errors io_desc evt other v e x)
        ≡ fault bad_function_call
  unfolding process_reactor_queue BlockingQueue.dequeue run_reactor_task
  errors-fault m = rw (idle, run, held, woken, kept e, empty)

module _ {W : Type 0} (os : Kernel W) (s : Service W) (evt io_desc strand : ℕ) (v : Event)
    (d : Descriptor) (t : Strand) (hv : s.registrar.register evt ≡ some v)
    (hd : v.descriptor ≡ some io_desc) (hs : s.descriptors io_desc ≡ some d)
    (hr : d.read_event ≡ some evt) (ht : v.strand ≡ some strand) (hq : s.strands strand ≡ some t)
    (refused : (EpollImpl.arm os s.reactor.fd d.fd (set_in d.event_mask) io_desc s.world).0
      ≢ ok_code) where
  abbrev arming : ErrorCode × W
  arming = EpollImpl.arm os s.reactor.fd d.fd (set_in d.event_mask) io_desc s.world

  -- The state in which the receive returns.
  abbrev stale : (cb : ℕ) → Service W
  stale cb =
      enqueued
        (record (with_register s (
          insert s.registrar.register evt
            (record v { react = none; complete = some (recved evt arming.0 cb (pos 0)) }))) {
              descriptors =
                  insert s.descriptors io_desc (record d { event_mask = set_in d.event_mask });
              world = arming.1;
            })
        strand t (completes evt)

  recv-stale :
      (buffer : ℕ) (size : ℤ) (cb : ℕ)
      → recv (init_read os) (record { evt = some evt }) buffer size (some cb) s ≡ ok (tt, stale cb)
  unfolding recv init_read
  recv-stale buffer size cb = ground arith

  module _ (other : ℕ) (v' : Event) (hv' : s.registrar.register other ≡ some v')
      (hd' : v'.descriptor ≡ some io_desc) (apart : evt ≢ other) (w : W)
      (armed : EpollImpl.arm os s.reactor.fd d.fd (set_out (set_in d.event_mask)) io_desc arming.1
        ≡ (ok_code, w))
      (cb : ℕ) where
    abbrev waiting : Descriptor
    waiting = record d { event_mask = set_out (set_in d.event_mask) }

    abbrev failed : Event
    failed = record v { react = none; complete = some (recved evt arming.0 cb (pos 0)) }

    -- The state in which the send returns: the kernel has been asked for input as well.
    abbrev sent : (react : React) → Service W
    sent react =
        record (with_register (stale cb)
          (insert (stale cb).registrar.register other (record v' { react = some react }))) {
            descriptors = insert (stale cb).descriptors io_desc waiting;
            world = w;
          }

    send-sent :
        (buffer : ℕ) (size : ℤ) (f : ℕ)
        → send (init_write os) (record { evt = some other }) buffer size (some f) (stale cb)
          ≡ ok (tt, sent (send_react other buffer size f))
    unfolding send init_write
    send-sent buffer size f = ground arith

    module _ (events : ℕ) (has : has_in events ≡ true) (hw : d.write_event ≡ some other)
        (runs : s.run ≡ true) (none_queued : s.reactor_tasks.queue ≡ []) where
      reported-fault :
          (r : React) (m : ℕ)
          → (ready_io os (record { events = events; ptr = io_desc })
                >> process_reactor_queue os (suc m))
              (sent r)
            ≡ fault bad_function_call
      reported-fault r m =
          let woken : Event = record v' { react = some r } in
          let mask = remaining events waiting.event_mask in
          let again = rearmed os (sent r) events io_desc waiting in
          let live : insert (stale cb).registrar.register other woken evt ≡ some failed =
            ground arith in
          let found : (u : W)
              → (remasked (sent r) io_desc waiting mask u).descriptors io_desc
                ≡ some (record waiting { event_mask = mask }) =
            λ u. insert_self (sent r).descriptors io_desc _ in
          rw
            (ready_io_lem os (sent r) events io_desc evt other waiting failed woken
              (insert_self (stale cb).descriptors io_desc waiting) hr hw live
              (insert_self (stale cb).registrar.register other woken) apart)
            (elim (Bool-cases (mask == 0)) [
              | inl all ↦ rw all (
                  reports-fault os (remasked (sent r) io_desc waiting mask w) events io_desc evt
                    other (record waiting { event_mask = mask }) failed woken runs none_queued
                    (found w) hr refl apart has m)
              | inr some_left ↦ rw some_left (elim (Bool-cases (again.0 == ok_code)) [
                | inl ready ↦ rw ready (
                    reports-fault os (remasked (sent r) io_desc waiting mask again.1) events io_desc
                      evt other (record waiting { event_mask = mask }) failed woken runs none_queued
                      (found again.1) hr refl apart has m)
                | inr refusal ↦ rw refusal (
                    errors-fault os (remasked (sent r) io_desc waiting mask again.1) events io_desc
                      evt other (record waiting { event_mask = mask }) failed woken runs none_queued
                      (found again.1) hr refl apart m)
              ])
            ])

      -- In a running service, a receive whose `arm` fails leaves its bit in the mask of its descriptor: a
      -- send on the other event of that descriptor has the kernel armed for input too. Where the `arm` of
      -- the send succeeds, input is reported after that, and the reactor has no other task, the pass over
      -- its tasks ends the program by a call of an empty function, whether or not the descriptor can be
      -- armed again for what is not reported.
      pub recv-send_fault :
          (buffer : ℕ) (size : ℤ) (buffer' : ℕ) (size' : ℤ) (f m : ℕ)
          → (recv (init_read os) (record { evt = some evt }) buffer size (some cb)
                >> send (init_write os) (record { evt = some other }) buffer' size' (some f)
                >> ready_io os (record { events = events; ptr = io_desc })
                >> process_reactor_queue os (suc m))
              s
            ≡ fault bad_function_call
      recv-send_fault buffer size buffer' size' f m =
          rw (recv-stale buffer size cb, send-sent buffer' size' f)
            (reported-fault (send_react other buffer' size' f) m)
