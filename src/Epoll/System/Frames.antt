-- ===== src/Epoll/System/Frames.antt =====
-- What becomes of the events that a step is not about.
use baba_io.Base.{ℕ, ◌≡◌, ◌≢◌, ◌∙◌, refl, ap, ◌⊎◌, some, Option, arith, inl, inr, ◌==◌, Bool-cases}
use baba_io.Epoll.State.{Service, Event}
use baba_io.Epoll.System.Invariant.{
  Phase, resting, reacting, deleting, handing, completing, finalising, HasStrand, Reacting,
  Completing, Final, EventOk,
}

-- The step touches one event at most, keeps its key, and closes no strand.
pub record Frame {W : Type 0} (s s' : Service W) (p : ℕ) : Type 0 where
  pub others : (q : ℕ) → p ≢ q → s'.registrar.register q ≡ s.registrar.register q
  pub kept :
      (v : Event)
      → s.registrar.register p ≡ some v
      → (v' : Event) × (s'.registrar.register p ≡ some v') × (v'.id ≡ v.id)
  pub descriptors : s'.descriptors ≡ s.descriptors
  pub strands : (k : ℕ) → HasStrand s k → HasStrand s' k

pub ne_or_eq : (p q : ℕ) → (p ≡ q) ⊎ (p ≢ q)
ne_or_eq p q = elim (Bool-cases (p == q)) [
  | inl e ↦ inl (ground arith)
  | inr e ↦ inr (λ h. ground arith)
]

module _ {W : Type 0} (s s' : Service W) (doom : ℕ → Option ℕ) (p : ℕ) (fr : Frame s s' p) where
  -- Any event is still there afterwards, under its key.
  still_there :
      (x : ℕ) (v : Event)
      → s.registrar.register x ≡ some v
      → (v' : Event) × (s'.registrar.register x ≡ some v') × (v'.id ≡ v.id)
  still_there x v found = elim (ne_or_eq p x) [
    | inl same ↦ rw (← same) (fr.kept v (ap s.registrar.register same ∙ found))
    | inr ne ↦ (v, fr.others x ne ∙ found, refl)
  ]

  module _ (q : ℕ) (ne : p ≢ q) where
    Reacting-frame : Reacting s q → Reacting s' q
    Reacting-frame v = record {
      event = v.event;
      found = fr.others q ne ∙ v.found;
      reaction = v.reaction;
      reacts = v.reacts;
      mine = v.mine;
      io_desc = v.io_desc;
      io = v.io;
      descriptor = v.descriptor;
      open_io = rw fr.descriptors v.open_io;
      strand = v.strand;
      on = v.on;
      queue = fr.strands v.strand v.queue;
      active = v.active;
    }

    Completing-frame : Completing s q → Completing s' q
    Completing-frame v = record {
      event = v.event;
      found = fr.others q ne ∙ v.found;
      completion = v.completion;
      holds = v.holds;
      mine = v.mine;
      call = v.call;
      owed = v.owed;
      io_desc = v.io_desc;
      io = v.io;
      descriptor = v.descriptor;
      open_io = rw fr.descriptors v.open_io;
      active = v.active;
    }

    Final-frame : (f : Final s doom q) → (g : Final s' doom q) × (g.strand ≡ f.strand)
    Final-frame f =
        let (target, found, id) = still_there f.victim f.target f.target_found in
        (
          record {
            event = f.event;
            found = fr.others q ne ∙ f.found;
            id = f.id;
            victim = f.victim;
            closure = f.closure;
            strand = f.strand;
            on = f.on;
            queue = fr.strands f.strand f.queue;
            target = target;
            target_found = found;
            target_id = id ∙ f.target_id;
            dooms = f.dooms;
            free = f.free;
          },
          refl,
        )

    -- What holds of an event in its place goes on to hold when a step is about another event.
    pub EventOk-frame : (x : Phase) → EventOk s doom q x → EventOk s' doom q x
    EventOk-frame resting h = tt
    EventOk-frame reacting h = Reacting-frame h
    EventOk-frame deleting h = (Final-frame h).0
    EventOk-frame handing h = (Final-frame h).0
    EventOk-frame (completing k) h = Completing-frame h
    EventOk-frame (finalising k) (f, e) = ((Final-frame f).0, (Final-frame f).1 ∙ e)

-- A final event is as it was where no event has changed and no strand has gone.
pub Final-kept :
    {W : Type 0} (s s' : Service W) (doom : ℕ → Option ℕ) (p : ℕ)
    → s'.registrar.register ≡ s.registrar.register
    → ((k : ℕ) → HasStrand s k → HasStrand s' k)
    → (f : Final s doom p) → (g : Final s' doom p) × (g.strand ≡ f.strand)
Final-kept s s' doom p same strands f = (
  record {
    event = f.event;
    found = rw same f.found;
    id = f.id;
    victim = f.victim;
    closure = f.closure;
    strand = f.strand;
    on = f.on;
    queue = strands f.strand f.queue;
    target = f.target;
    target_found = rw same f.target_found;
    target_id = f.target_id;
    dooms = f.dooms;
    free = f.free;
  },
  refl,
)

-- A step that changes no event is a step about any.
pub Frame-kept :
    {W : Type 0} (s s' : Service W) (p : ℕ)
    → s'.registrar.register ≡ s.registrar.register
    → s'.descriptors ≡ s.descriptors
    → ((k : ℕ) → HasStrand s k → HasStrand s' k)
    → Frame s s' p
Frame-kept s s' p same descriptors strands = record {
  others = λ q ne. rw same refl;
  kept = λ v found. (v, rw same found, refl);
  descriptors = descriptors;
  strands = strands;
}
