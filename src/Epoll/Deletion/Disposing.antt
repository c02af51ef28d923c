-- ===== src/Epoll/Deletion/Disposing.antt =====
-- What `dispose` sets up.
use baba_io.Base.{
  ℕ, ◌+◌, ◌<◌, ◌^◌, ◌≡◌, ◌≢◌, refl, true, false, inl, inr, ◌⊎◌, none, some, [], ◌∷◌, ◌++◌, arith,
  insert, ◌%◌, insert_self, insert_ne, sym, Bool-cases,
}
use baba_io.Os.Kernel.{Kernel}
use baba_io.Epoll.State.{Service, Event, finalise}
use baba_io.Epoll.Memory.{ok, fault, aborted, Returns}
use baba_io.Epoll.Interrupter.{interrupt, write_fails, written}
use baba_io.Epoll.Registrar.{fresh_event, take_id}
use baba_io.Epoll.Registrar.Ids.{IsRegistrar, take_id-Taken}
use baba_io.Epoll.Deletion.{dispose}

-- The final event that `dispose` makes for an event.
abbrev pub final_of : (evt final_evt : ℕ) → Event → Event
final_of evt final_evt e = record fresh_event {
  id = final_evt;
  strand = e.strand;
  complete = some (finalise evt final_evt);
}

-- The state after a `dispose`: a new final event is queued for deletion, and no event is changed.
pub record Disposing {W : Type 0} (s s' : Service W) (evt : ℕ) (e : Event) : Type 0 where
  pub final_evt : ℕ
  pub unused : s.registrar.register final_evt ≡ none
  pub final_event : s'.registrar.register final_evt ≡ some (final_of evt final_evt e)
  pub others : (k : ℕ) → k ≢ final_evt → s'.registrar.register k ≡ s.registrar.register k
  pub queued : s'.deletions.queue ≡ s.deletions.queue ++ final_evt ∷ []
  pub tasks : s'.reactor_tasks ≡ s.reactor_tasks
  pub strands : s'.strands ≡ s.strands

interrupt_cases :
    {W : Type 0} (os : Kernel W) (s : Service W)
    → ((write_fails os s ≡ true) × (interrupt os s ≡ fault aborted))
      ⊎ ((write_fails os s ≡ false) × (interrupt os s ≡ ok (tt, record s { world = written os s })))
unfolding interrupt
interrupt_cases os s = elim (Bool-cases (write_fails os s)) [
  | inl bad ↦ inl (bad, rw bad)
  | inr good ↦ inr (good, rw good)
]

module _ {W : Type 0} (os : Kernel W) (s : Service W) (evt : ℕ) (e : Event)
    (v : IsRegistrar s.registrar) (room : s.registrar.id_generator + 1 < 2 ^ 64)
    (he : s.registrar.register evt ≡ some e) where
  abbrev gen : ℕ
  gen = s.registrar.id_generator

  dispose_unused : s.registrar.register s.registrar.id_generator ≡ none
  unfolding take_id
  dispose_unused = (take_id-Taken s.registrar v room).unused

  apart : evt ≢ gen
  apart h = absurd (omega (arith, v.below evt e he))

  -- The state in which the reactor is interrupted.
  abbrev pub disposed : Service W
  disposed = record s {
    registrar = record {
      register = insert s.registrar.register gen (final_of evt gen e);
      id_generator = (gen + 1) % 2 ^ 64;
    };
    deletions = record { queue = s.deletions.queue ++ gen ∷ [] };
  }

  -- As long as the counter does not wrap, the keys stay right.
  pub disposed-IsRegistrar : IsRegistrar disposed.registrar
  disposed-IsRegistrar = record {
    keyed = λ k f h. ground (arith, v.keyed k f);
    below = λ k f h. ground (arith, v.below k f);
  }

  dispose-interrupt : dispose os (some evt) s ≡ interrupt os disposed
  unfolding dispose
  dispose-interrupt = ground (arith, dispose_unused, apart)

  -- `dispose` of a registered event, where the keys of the registrar are right and its counter does not
  -- wrap. Where the write to the self pipe fails, other than on a full pipe, it aborts. Otherwise it
  -- returns after that write: it has made one new event, whose closure deletes the event disposed of and
  -- itself, on the same strand, and has put it at the end of the deletion queue; it has changed no event
  -- that there was.
  pub dispose-Disposing :
      ((write_fails os s ≡ true) × (dispose os (some evt) s ≡ fault aborted))
      ⊎ ((write_fails os s ≡ false)
          × Returns
              (λ _ s'. Disposing s s' evt e × (s'.world ≡ written os s))
              (dispose os (some evt) s))
  dispose-Disposing = rw dispose-interrupt (elim (interrupt_cases os disposed) [
    | inl bad ↦ inl bad
    | inr (good, e') ↦ inr (
      good,
      rw e' (
        record {
          final_evt = gen;
          unused = dispose_unused;
          final_event = insert_self s.registrar.register gen (final_of evt gen e);
          others = λ k ne. insert_ne s.registrar.register gen k _ (λ h. ne (sym h));
          queued = refl;
          tasks = refl;
          strands = refl;
        },
        refl,
      ),
    )
  ])

  -- What a `dispose` comes to whose write does not fail.
  pub dispose_lem :
      write_fails os s ≡ false
      → dispose os (some evt) s ≡ ok (tt, record disposed { world = written os s })
  unfolding interrupt
  dispose_lem good = rw (dispose-interrupt, good) refl
