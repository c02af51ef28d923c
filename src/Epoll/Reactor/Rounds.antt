-- ===== src/Epoll/Reactor/Rounds.antt =====
-- What one entry of the list of `epoll_wait` comes to.
use baba_io.Base.{
  ℕ, ◌≡◌, ◌≢◌, refl, Bool, true, some, [], ◌∷◌, ◌++◌, arith, insert, insert_self, insert_same,
  insert-insert, ap, sym, if◌then◌else◌, ◌==◌, Bool-cases, inl, inr,
}
use baba_io.Os.Codes.{ErrorCode, ok_code, ebadf, epollerr, epollhup}
use baba_io.Os.Kernel.{Kernel}
use baba_io.Os.EpollImpl
use baba_io.Epoll.State.{Service, Event, Descriptor, ReactorTask, read_reacts, write_reacts}
use baba_io.Epoll.Memory.{ok, with_register}
use baba_io.Epoll.Mask.{has_in, has_out, has_err, has_hup, clear_in, clear_out, clear_read_mask}
use baba_io.Epoll.Reactor.{deliver, deliver_ready, deliver_error, clear_reported, ready_io}

-- The part of the mask that has not been reported.
abbrev pub remaining : (events mask : ℕ) → ℕ
remaining events mask =
    let m = if has_in events then clear_in mask else mask in
    if has_out events then clear_out m else m

-- The state with the descriptor's mask replaced.
abbrev pub masked : {W : Type 0} → Service W → (io_desc : ℕ) → Descriptor → ℕ → Service W
masked s io_desc d m = record s {
  descriptors = insert s.descriptors io_desc (record d { event_mask = m });
}

-- The state with an event marked and a reaction queued.
abbrev pub delivered : {W : Type 0} → Service W → (evt : ℕ) → Event → ReactorTask → Service W
delivered s evt e task =
    record (with_register s
      (insert s.registrar.register evt (record e { has_active_event = true }))) {
        reactor_tasks = record (s.reactor_tasks) { queue = s.reactor_tasks.queue ++ task ∷ [] };
      }

-- The same after a call of the operating system.
abbrev pub remasked : {W : Type 0} → Service W → (io_desc : ℕ) → Descriptor → ℕ → W → Service W
remasked s io_desc d m w = record (masked s io_desc d m) { world = w }

-- The outcome of arming the descriptor again for what is left of the mask.
abbrev pub rearmed :
    {W : Type 0} → Kernel W → Service W → (events io_desc : ℕ) → Descriptor → ErrorCode × W
rearmed os s events io_desc d =
    EpollImpl.arm os s.reactor.fd d.fd (remaining events d.event_mask) io_desc s.world

-- The state after the reactions to what is reported, and after those to an error.
abbrev pub after_reports :
    {W : Type 0} → (events io_desc re we : ℕ) → (er ew : Event) → Service W → Service W
after_reports events io_desc re we er ew s =
    let r =
      (if has_in events
        then delivered s re er (read_reacts io_desc (if has_hup events then epollhup else ok_code))
        else s) in
    if has_out events
    then delivered r we ew (write_reacts io_desc (if has_err events then epollerr else ok_code))
    else r

abbrev pub after_errors :
    {W : Type 0} → (io_desc re we : ℕ) → (er ew : Event) → Service W → Service W
after_errors io_desc re we er ew s =
    delivered (delivered s re er (read_reacts io_desc ebadf)) we ew (write_reacts io_desc ebadf)

deliver_lem :
    {W : Type 0} (s : Service W) (evt : ℕ) (e : Event) (task : ReactorTask)
    → s.registrar.register evt ≡ some e
    → deliver (some evt) task s ≡ ok (tt, delivered s evt e task)
unfolding deliver
deliver_lem s evt e task h = rw h

module _ {W : Type 0} (os : Kernel W) (s : Service W) (events io_desc re we : ℕ) (d : Descriptor)
    (er ew : Event) (hd : s.descriptors io_desc ≡ some d) (hr : d.read_event ≡ some re)
    (hw : d.write_event ≡ some we) (lr : s.registrar.register re ≡ some er)
    (lw : s.registrar.register we ≡ some ew) (apart : re ≢ we) where
  clear_reported_lem :
      clear_reported events io_desc s ≡ ok (tt, masked s io_desc d (remaining events d.event_mask))
  unfolding clear_reported
  clear_reported_lem = elim (Bool-cases (has_in events)) [
    | inl i ↦ elim (Bool-cases (has_out events)) [
      | inl o ↦
          rw (i, o, hd)
            (rw (insert_self s.descriptors io_desc (clear_read_mask d)) (
              ap (λ t. ok (tt, record s { descriptors = t }))
                (insert-insert s.descriptors io_desc _ _)))
      | inr o ↦ rw (i, o, hd) refl
    ]
    | inr i ↦ elim (Bool-cases (has_out events)) [
      | inl o ↦ rw (i, o, hd) refl
      | inr o ↦
          rw (i, o)
            (ap (λ t. ok (tt, record s { descriptors = t }))
              (sym (insert_same s.descriptors io_desc d hd)))
    ]
  ]

  kept :
      (b : Bool) → insert s.registrar.register re (record er { has_active_event = b }) we ≡ some ew
  kept b = ground arith

  module _ (m : ℕ) (w : W) where
    found : (remasked s io_desc d m w).descriptors io_desc ≡ some (record d { event_mask = m })
    found = insert_self s.descriptors io_desc (record d { event_mask = m })

    deliver_error_lem :
        deliver_error io_desc (remasked s io_desc d m w)
        ≡ ok (tt, after_errors io_desc re we er ew (remasked s io_desc d m w))
    unfolding deliver_error deliver
    deliver_error_lem = rw (found, hr, hw, lr, kept true)

    deliver_ready_lem :
        deliver_ready events io_desc (remasked s io_desc d m w)
        ≡ ok (tt, after_reports events io_desc re we er ew (remasked s io_desc d m w))
    unfolding deliver_ready deliver
    deliver_ready_lem = elim (Bool-cases (has_in events)) [
      | inl i ↦ elim (Bool-cases (has_out events)) [
        | inl o ↦ rw (found, i, o, hr, hw, lr, kept true)
        | inr o ↦ rw (found, i, o, hr, lr)
      ]
      | inr i ↦ elim (Bool-cases (has_out events)) [
        | inl o ↦ rw (found, i, o, hw, lw)
        | inr o ↦ rw (found, i, o)
      ]
    ]

  -- An entry of a descriptor takes what is reported off the mask. If that leaves nothing, or what is
  -- left can be armed again, the reactions to what is reported are queued and no others; if it cannot,
  -- both events get the error, and what was reported is dropped. There is no fault.
  pub ready_io_lem : ready_io os (record { events = events; ptr = io_desc }) s ≡ (
      let m = remaining events d.event_mask in
      if m == 0
      then ok (tt, after_reports events io_desc re we er ew (remasked s io_desc d m s.world))
      else (if (rearmed os s events io_desc d).0 == ok_code
          then ok (
            tt,
            after_reports events io_desc re we er ew
                (remasked s io_desc d m (rearmed os s events io_desc d).1),
          )
          else ok (
            tt,
            after_errors io_desc re we er ew
                (remasked s io_desc d m (rearmed os s events io_desc d).1),
          )))
  unfolding ready_io
  ready_io_lem =
      rw (clear_reported_lem, found (remaining events d.event_mask) s.world)
        (elim (Bool-cases (remaining events d.event_mask == 0)) [
          | inl none_left ↦ rw none_left (deliver_ready_lem (remaining events d.event_mask) s.world)
          | inr some_left ↦
              rw (some_left, found (remaining events d.event_mask) s.world)
                (elim (Bool-cases ((rearmed os s events io_desc d).0 == ok_code)) [
                  | inl armed ↦ rw armed (
                      deliver_ready_lem (remaining events d.event_mask)
                        (rearmed os s events io_desc d).1)
                  | inr refused ↦ rw refused (
                      deliver_error_lem (remaining events d.event_mask)
                        (rearmed os s events io_desc d).1)
                ])
        ])
