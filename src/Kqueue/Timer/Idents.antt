-- ===== src/Kqueue/Timer/Idents.antt =====
-- The idents of timers, which stand where other objects have handles of files.
use baba_io.Base.{
  ℕ, suc, pos, ◌+◌, ◌*◌, ◌%◌, ◌^◌, ◌==ℤ◌, ◌≡◌, ◌∙◌, ◌≤◌, ◌<◌, refl, ap, none, some, [], insert,
  insert-insert, insert_self, erase-insert_free, key_other, arith, false, key_same, minus_one,
}
use baba_io.Os.Codes.{invalid_handle}
use baba_io.Os.FileImpl
use baba_io.Epoll.Memory.{ok}
use baba_io.Kqueue.State.{Service, Event, Descriptor, Kqueue, Operations}
use baba_io.Kqueue.Memory.{◌>>=◌, ◌>>◌, take, fresh_event}
use baba_io.Kqueue.Impl
use baba_io.Kqueue.Events
use baba_io.Kqueue.Events.Timer
use baba_io.Kqueue.Service.Lifetime.{Idle, disposed, destroy-disposed}
use baba_io.Kqueue.Service.{process_initiation_queue, process_completion_queue}
use baba_io.Kqueue.Timer.{construct, destroy, new_descriptor}

-- For a time in milliseconds that fits 32 bits, the time that the kernel is given, a product of 32 bits,
-- is that time in microseconds exactly when it is at most 4,294,967 milliseconds.
pub microseconds_exact :
    (t : ℕ)
    → t < 2 ^ 32
    → (Timer.microseconds t ≡ t * 1000 → t ≤ 4294967)
      × (t ≤ 4294967 → Timer.microseconds t ≡ t * 1000)
unfolding Timer.microseconds
microseconds_exact t h = (λ e. omega arith, λ e. omega arith)

abbrev timer_event : (p io_desc scope : ℕ) → Event
timer_event p io_desc scope = record (fresh_event) {
  descriptor = some io_desc;
  scope = some scope;
  id = p;
}

module _ {W : Type 0} (s : Service W) (l : ℕ) where
  -- A service with a new timer.
  abbrev pub made : Service W
  made = record s {
    register = insert s.register s.id_generator (timer_event s.id_generator s.next_descriptor l);
    id_generator = (s.id_generator + 1) % 2 ^ 64;
    descriptors =
        insert s.descriptors s.next_descriptor (record { fd = pos s.ident_generator; refs = 2 });
    next_descriptor = s.next_descriptor + 1;
    ident_generator = (s.ident_generator + 1) % 2 ^ 16;
  }

  -- The event when it is taken, and when it has its scope.
  abbrev fresh : Event
  fresh = record (fresh_event) { id = s.id_generator }

  abbrev scoped : Event
  scoped = record fresh { scope = some l }

  pub construct-made :
      s.register s.id_generator ≡ none
      → construct (some l) s
        ≡ ok (record { descriptor = s.next_descriptor; timer = s.id_generator }, made)
  unfolding construct new_descriptor Timer.construct Events.construct take Impl.create_timer
  construct-made free =
      simp (free, key_same s.id_generator, key_same s.next_descriptor)
        (λ i. ok (
          record { descriptor = s.next_descriptor; timer = s.id_generator },
          record made {
            register =
                (insert-insert (insert s.register s.id_generator fresh) s.id_generator scoped
                      (timer_event s.id_generator s.next_descriptor l)
                    ∙ insert-insert s.register s.id_generator fresh
                        (timer_event s.id_generator s.next_descriptor l))
                  i;
            descriptors =
                (insert-insert
                      (insert s.descriptors s.next_descriptor
                        (record { fd = invalid_handle; refs = 1 }))
                      s.next_descriptor (record { fd = invalid_handle; refs = 2 })
                      (record { fd = pos s.ident_generator; refs = 2 })
                    ∙ insert-insert s.descriptors s.next_descriptor
                        (record { fd = invalid_handle; refs = 1 })
                        (record { fd = pos s.ident_generator; refs = 2 }))
                  i;
          },
        ))

module _ {W : Type 0} (kq : Kqueue W) (s : Service W) where
  -- The service as it was, but for the generators: the file whose number is the ident is closed.
  abbrev pub unmade : Service W
  unmade = record s {
    id_generator = ((s.id_generator + 1) % 2 ^ 64 + 1) % 2 ^ 64;
    next_descriptor = s.next_descriptor + 1;
    ident_generator = (s.ident_generator + 1) % 2 ^ 16;
    initiation_queue = record { queue = [] };
    completion_queue = record (s.completion_queue) { queue = [] };
    world =
        FileImpl.close kq.os (pos s.ident_generator)
          (kq.os.write s.interrupter.write_end 0 1 s.world).1;
  }

module _ {W : Type 0} (kq : Kqueue W) (ops : Operations W) (s : Service W) (l : ℕ)
    (free : s.register s.id_generator ≡ none)
    (next_free : s.register ((s.id_generator + 1) % 2 ^ 64) ≡ none)
    (unused : s.descriptors s.next_descriptor ≡ none)
    (wrote : ((kq.os.write s.interrupter.write_end 0 1 s.world).0.value ==ℤ minus_one) ≡ false)
    (hq : s.initiation_queue.queue ≡ []) (hc : s.completion_queue.queue ≡ []) where
  abbrev handle : Descriptor
  handle = record { fd = pos s.ident_generator; refs = 2 }

  made-Idle :
      Idle kq
        (made s l)
        s.id_generator
        s.next_descriptor
        (timer_event s.id_generator s.next_descriptor l)
        handle
  made-Idle = record {
    held = insert_self s.register s.id_generator (timer_event s.id_generator s.next_descriptor l);
    own = refl;
    points = refl;
    stored = insert_self s.descriptors s.next_descriptor handle;
    two = refl;
    valid = refl;
    free = simp (key_other s.id_generator ((s.id_generator + 1) % 2 ^ 64) (omega arith)) next_free;
    wrote = wrote;
    no_initiations = hq;
    no_completions = hc;
  }

  leaves : disposed kq (made s l) s.id_generator s.next_descriptor handle ≡ unmade kq s
  leaves = λ i. record (unmade kq s) {
    register =
        erase-insert_free s.register s.id_generator (timer_event s.id_generator s.next_descriptor l)
          free i;
    descriptors = erase-insert_free s.descriptors s.next_descriptor handle unused i;
  }

  -- A timer that is made with a scope and destroyed in a service with nothing queued, whose next keys are free: after
  -- a pass over each queue the service is as it was, but for the generators, and one handle is closed,
  -- the one whose number is the ident of the timer, though no file was opened.
  pub construct-destroy :
      (m n : ℕ)
      → (construct (some l) >>= λ t.
            destroy kq t
            >> process_initiation_queue kq ops (suc (suc m))
            >> process_completion_queue kq ops (suc (suc n)))
          s
        ≡ ok (tt, unmade kq s)
  unfolding destroy Timer.destroy
  construct-destroy m n = simp (construct-made s l free) (
      destroy-disposed kq ops (made s l) s.id_generator s.next_descriptor
        (timer_event s.id_generator s.next_descriptor l) handle made-Idle m n
      ∙ ap (λ t. ok (tt, t)) leaves)
