-- ===== src/Kqueue/Service/Lifetime.antt =====
-- The end of an object that has one event: its destructor, and the next turn of the two threads.
use baba_io.Base.{
  ℕ, suc, ◌+◌, ◌%◌, ◌^◌, ◌==ℤ◌, ◌≡◌, ◌≢◌, ◌∙◌, refl, ap, none, some, [], ◌∷◌, ◌++◌, insert, erase,
  arith, false, insert_self, key_other, sym, erase_fresh, erase-insert, minus_one,
}
use baba_io.Os.Codes.{invalid_handle}
use baba_io.Os.FileImpl
use baba_io.Epoll.Memory.{ok}
use baba_io.Kqueue.State.{Service, Event, Descriptor, Kqueue, Operations}
use baba_io.Kqueue.Memory.{M, ◌>>◌, release}
use baba_io.Kqueue.Events
use baba_io.Kqueue.Service.{process_initiation_queue, process_completion_queue}
use baba_io.Kqueue.Service.Deletion.{
  final, dropped, destroy_lem, final_done, initiated, initiates_final, closed, completes_final,
  completes_none,
}

module _ {W : Type 0} (kq : Kqueue W) where
  abbrev pub gone : (p io_desc : ℕ) → M W (Unit {0})
  gone p io_desc = Events.destroy kq p >> release kq io_desc

module _ {W : Type 0} (kq : Kqueue W) (ops : Operations W) where
  -- The object goes, and then each thread takes what is queued.
  abbrev pub disposal : (p io_desc m n : ℕ) → M W (Unit {0})
  disposal p io_desc m n =
      gone kq p io_desc
      >> process_initiation_queue kq ops (suc (suc m))
      >> process_completion_queue kq ops (suc (suc n))

module _ {W : Type 0} (kq : Kqueue W) (s : Service W) (p io_desc : ℕ) (d : Descriptor) where
  abbrev pub written : W
  written = (kq.os.write s.interrupter.write_end 0 1 s.world).1

  -- The service without the event and its descriptor, whose handle is closed.
  abbrev pub disposed : Service W
  disposed = record s {
    register = erase s.register p;
    id_generator = (s.id_generator + 1) % 2 ^ 64;
    descriptors = erase s.descriptors io_desc;
    initiation_queue = record { queue = [] };
    completion_queue = record (s.completion_queue) { queue = [] };
    world = FileImpl.close kq.os d.fd written;
  }

-- The state of a service with an object that nothing is asked of: the event and the descriptor are
-- those of the object, and no key has come round.
pub record Idle {W : Type 0} (kq : Kqueue W) (s : Service W) (p io_desc : ℕ) (v : Event)
    (d : Descriptor) : Type 0 where
  pub held : s.register p ≡ some v
  pub own : v.id ≡ p
  pub points : v.descriptor ≡ some io_desc
  pub stored : s.descriptors io_desc ≡ some d
  pub two : d.refs ≡ 2
  pub valid : (d.fd ==ℤ invalid_handle) ≡ false
  pub free : s.register s.id_generator ≡ none
  pub wrote : ((kq.os.write s.interrupter.write_end 0 1 s.world).0.value ==ℤ minus_one) ≡ false
  pub no_initiations : s.initiation_queue.queue ≡ []
  pub no_completions : s.completion_queue.queue ≡ []

module _ {W : Type 0} (kq : Kqueue W) (s : Service W) (p io_desc : ℕ) (d : Descriptor) where
  abbrev pub one : Service W
  one = record (dropped kq s p s.id_generator (written kq s p io_desc d)) {
    descriptors = insert s.descriptors io_desc (record d { refs = 1 });
  }

module _ {W : Type 0} (kq : Kqueue W) (ops : Operations W) (s : Service W) (p io_desc : ℕ)
    (v : Event) (d : Descriptor) (idle : Idle kq s p io_desc v d) where
  abbrev k : ℕ
  k = s.id_generator

  pub other : p ≢ k
  other e = let h : some v ≡ none = cc (idle.held, idle.free, e) in ground arith

  apart : k ≢ p
  apart e = other (sym e)

  let_go :
      release kq io_desc (dropped kq s p k (written kq s p io_desc d))
      ≡ ok (tt, one kq s p io_desc d)
  unfolding release
  let_go = simp idle.stored (simp idle.two refl)

  pub goes : gone kq p io_desc s ≡ ok (tt, one kq s p io_desc d)
  goes = simp (destroy_lem kq s p k refl idle.free v idle.held apart idle.wrote) let_go

  pub starts :
      (m : ℕ)
      → process_initiation_queue kq ops (suc (suc m)) (one kq s p io_desc d)
        ≡ ok (tt, initiated (one kq s p io_desc d) p k)
  starts m =
      initiates_final kq ops (one kq s p io_desc d) p k (ap (λ q. q ++ k ∷ []) idle.no_initiations)
        (insert_self s.register k (final p k)) v (simp (key_other k p apart) idle.held) apart m

  pub kept : (initiated (one kq s p io_desc d) p k).register p ≡ some v
  kept = simp (key_other k p apart) idle.held

  settle :
      closed kq (initiated (one kq s p io_desc d) p k) p k io_desc (record d { refs = 1 }) []
      ≡ disposed kq s p io_desc d
  settle = λ i. record (disposed kq s p io_desc d) {
    register = erase_fresh s.register p k (final p k) (final_done p k) idle.free i;
    descriptors = erase-insert s.descriptors io_desc (record d { refs = 1 }) i;
  }

  ends :
      (n : ℕ)
      → process_completion_queue kq ops (suc (suc n)) (initiated (one kq s p io_desc d) p k)
        ≡ ok (tt, disposed kq s p io_desc d)
  ends n =
      completes_final kq ops (initiated (one kq s p io_desc d) p k) p k io_desc v
        (record d { refs = 1 }) [] (ap (λ q. q ++ k ∷ []) idle.no_completions) other
        (insert_self (one kq s p io_desc d).register k (final_done p k)) kept idle.own idle.points
        (insert_self s.descriptors io_desc (record d { refs = 1 })) refl idle.valid (suc n)
      ∙ completes_none kq ops
          (closed kq (initiated (one kq s p io_desc d) p k) p k io_desc (record d { refs = 1 }) [])
          refl n
      ∙ ap (λ t. ok (tt, t)) settle

  -- The destructor of an object that is idle: its event and descriptor are its own, nothing is queued,
  -- and no report comes. After it and a pass over each queue, two rounds each, the event and its final
  -- event are out of the registrar, which is as it was otherwise, the descriptor is gone, both queues
  -- are empty, no function of the user is called, and the handle is closed once, after the write to the
  -- self pipe.
  pub destroy-disposed :
      (m n : ℕ) → disposal kq ops p io_desc m n s ≡ ok (tt, disposed kq s p io_desc d)
  destroy-disposed m n = simp goes (simp (starts m) (ends n))
