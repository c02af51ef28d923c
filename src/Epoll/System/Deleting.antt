-- ===== src/Epoll/System/Deleting.antt =====
-- What becomes of the other events when a final event deletes its own and itself.
use baba_io.Base.{none, ℕ, ◌≡◌, ◌≢◌, ◌∙◌, sym, refl, ap, some, Option}
use baba_io.Epoll.State.{Service}
use baba_io.Epoll.System.Moves.{some_eq}
use baba_io.Epoll.System.Invariant.{
  Phase, resting, reacting, deleting, handing, completing, finalising, HasStrand, Reacting,
  Completing, Final, EventOk,
}

module _ {W : Type 0} (s u : Service W) (doom : ℕ → Option ℕ) (p victim : ℕ)
    (dooms : doom victim ≡ some p) (free : doom p ≡ none)
    (same : (q : ℕ) → p ≢ q → victim ≢ q → u.registrar.register q ≡ s.registrar.register q)
    (descriptors : u.descriptors ≡ s.descriptors)
    (kept : (k : ℕ) → HasStrand s k → HasStrand u k) where
  module _ (q : ℕ) (other : p ≢ q) (survivor : victim ≢ q) where
    Reacting-deleted : Reacting s q → Reacting u q
    Reacting-deleted r = record {
      event = r.event;
      found = same q other survivor ∙ r.found;
      reaction = r.reaction;
      reacts = r.reacts;
      mine = r.mine;
      io_desc = r.io_desc;
      io = r.io;
      descriptor = r.descriptor;
      open_io = rw descriptors r.open_io;
      strand = r.strand;
      on = r.on;
      queue = kept r.strand r.queue;
      active = r.active;
    }

    Completing-deleted : Completing s q → Completing u q
    Completing-deleted r = record {
      event = r.event;
      found = same q other survivor ∙ r.found;
      completion = r.completion;
      holds = r.holds;
      mine = r.mine;
      call = r.call;
      owed = r.owed;
      io_desc = r.io_desc;
      io = r.io;
      descriptor = r.descriptor;
      open_io = rw descriptors r.open_io;
      active = r.active;
    }

    different_victim : (z : ℕ) → doom z ≡ some q → victim ≢ z
    different_victim z h e = other (some_eq (sym dooms ∙ ap doom e ∙ h))

    different_final : (z : ℕ) → doom z ≡ some q → p ≢ z
    different_final z h e = cc (sym free ∙ ap doom e ∙ h)

    -- Another final event has another victim, which is not a final event itself.
    Final-deleted : (f : Final s doom q) → (g : Final u doom q) × (g.strand ≡ f.strand)
    Final-deleted f = (
      record {
        event = f.event;
        found = same q other survivor ∙ f.found;
        id = f.id;
        victim = f.victim;
        closure = f.closure;
        strand = f.strand;
        on = f.on;
        queue = kept f.strand f.queue;
        target = f.target;
        target_found =
            same f.victim (different_final f.victim f.dooms) (different_victim f.victim f.dooms)
            ∙ f.target_found;
        target_id = f.target_id;
        dooms = f.dooms;
        free = f.free;
      },
      refl,
    )

    -- What holds of an event in its place goes on to hold when two others are deleted.
    pub EventOk-deleted : (n : Phase) → EventOk s doom q n → EventOk u doom q n
    EventOk-deleted resting h = tt
    EventOk-deleted reacting h = Reacting-deleted h
    EventOk-deleted deleting h = (Final-deleted h).0
    EventOk-deleted handing h = (Final-deleted h).0
    EventOk-deleted (completing j) h = Completing-deleted h
    EventOk-deleted (finalising j) (f, e) = ((Final-deleted f).0, (Final-deleted f).1 ∙ e)
