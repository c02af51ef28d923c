-- ===== src/Epoll/Registrar/Ids.antt =====
-- The ids of the registrar: an event's id is its key, and no key is handed out while it is in use.
use baba_io.Base.{ℕ, ◌+◌, ◌<◌, ◌^◌, ◌≡◌, ◌≢◌, none, some, arith, erase, Option-cases, inl, inr}
use baba_io.Epoll.State.{Service, Event, Registrar}
use baba_io.Epoll.Memory.{ok, with_register, fault, dangling_event}
use baba_io.Epoll.Registrar.{fresh_event, take_id, give}

pub record IsRegistrar (r : Registrar) : Type 0 where
  pub keyed : (k : ℕ) (e : Event) → r.register k ≡ some e → e.id ≡ k
  pub below : (k : ℕ) (e : Event) → r.register k ≡ some e → k < r.id_generator

-- The events that `take` hands out are new: nothing in use had that key, and all else stays.
pub record Taken (r : Registrar) (key : ℕ) (r' : Registrar) : Type 0 where
  pub unused : r.register key ≡ none
  pub fresh : r'.register key ≡ some (record fresh_event { id = key })
  pub others : (k : ℕ) → k ≢ key → r'.register k ≡ r.register k
  pub next : IsRegistrar r'

module _ (r : Registrar) (v : IsRegistrar r) where
  unused_next : r.register r.id_generator ≡ none
  unused_next = elim (Option-cases (r.register r.id_generator)) [
    | inl e ↦ e
    | inr (e, h) ↦ absurd (omega (arith, v.below r.id_generator e h))
  ]

  take_id-keyed : (k : ℕ) (e : Event) → (take_id r).1.register k ≡ some e → e.id ≡ k
  unfolding take_id
  take_id-keyed k e h = ground (arith, v.keyed k e)

  take_id-below :
      r.id_generator + 1 < 2 ^ 64
      → (k : ℕ) (e : Event) → (take_id r).1.register k ≡ some e
      → k < (take_id r).1.id_generator
  unfolding take_id
  take_id-below room k e h = ground (arith, v.below k e)

  -- As long as the counter does not wrap, `take` hands out an event with a key that was not in use,
  -- in its initial state; it changes no other event, and the keys stay right.
  pub take_id-Taken : r.id_generator + 1 < 2 ^ 64 → Taken r (take_id r).0 (take_id r).1
  unfolding take_id
  take_id-Taken room = record {
    unused = unused_next;
    fresh = ground (arith, unused_next);
    others = λ k ne. ground arith;
    next = record { keyed = take_id-keyed; below = take_id-below room };
  }

pub give_at :
    {W : Type 0} (s : Service W) (evt : ℕ) (e : Event)
    → s.registrar.register evt ≡ some e
    → give evt s ≡ ok (tt, with_register s (erase s.registrar.register e.id))
unfolding give
give_at s evt e h = rw h

-- `give` of a live event erases that event and nothing else, and of an erased one is a fault.
pub give_lem :
    {W : Type 0} (s : Service W) (evt : ℕ) (e : Event)
    → IsRegistrar s.registrar
    → s.registrar.register evt ≡ some e
    → give evt s ≡ ok (tt, with_register s (erase s.registrar.register evt))
unfolding give
give_lem s evt e v h = rw (h, v.keyed evt e h)

pub give_dangling :
    {W : Type 0} (s : Service W) (evt : ℕ)
    → s.registrar.register evt ≡ none
    → give evt s ≡ fault dangling_event
unfolding give
give_dangling s evt h = rw h

pub erase-IsRegistrar :
    (r : Registrar) (evt : ℕ)
    → IsRegistrar r
    → IsRegistrar (record r { register = erase r.register evt })
erase-IsRegistrar r evt v = record {
  keyed = λ k e h. ground (arith, v.keyed k e);
  below = λ k e h. ground (arith, v.below k e);
}
