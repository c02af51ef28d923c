-- ===== src/Os/EpollImpl/Arming.antt =====
-- What `arm` does to the interest list of an epoll instance, given what epoll_ctl(2) documents of the
-- calls that it makes.
use baba_io.Base.{
  ℕ, pos, minus_one, ◌≡◌, ◌≢◌, ◌⊎◌, inl, inr, refl, Option, none, some, Option-cases, ◌==◌, ◌==ℤ◌,
  key_other, false, if◌then◌else◌,
}
use baba_io.Os.Codes.{ErrorCode, ok_code, IoHandle, enoent}
use baba_io.Os.Kernel.{Kernel, EpollEvent, epoll_ctl_add, epoll_ctl_mod}
use baba_io.Os.EpollImpl.{with_oneshot, arm_add, arm}

-- `interest w fd` is the entry of the handle `fd` in the interest list, for one epoll instance.
pub record EpollLaws {W : Type 0} (os : Kernel W) (epoll_fd : IoHandle)
    (interest : W → IoHandle → Option EpollEvent) : Type 0 where
  -- EPOLL_CTL_MOD changes an entry that there is, or fails with another error than ENOENT and changes
  -- nothing,
  pub mod_entry :
      (w : W) (fd : IoHandle) (evt old : EpollEvent)
      → interest w fd ≡ some old
      → (((os.epoll_ctl epoll_fd epoll_ctl_mod fd evt w).0.value ≡ pos 0)
          × (interest (os.epoll_ctl epoll_fd epoll_ctl_mod fd evt w).1 fd ≡ some evt))
        ⊎ (((os.epoll_ctl epoll_fd epoll_ctl_mod fd evt w).0.value ≡ minus_one)
            × ((os.epoll_ctl epoll_fd epoll_ctl_mod fd evt w).0.errno ≢ 0)
            × ((os.epoll_ctl epoll_fd epoll_ctl_mod fd evt w).0.errno ≢ enoent)
            × (interest (os.epoll_ctl epoll_fd epoll_ctl_mod fd evt w).1 fd ≡ some old))
  -- and fails with ENOENT where there is none.
  pub mod_no_entry :
      (w : W) (fd : IoHandle) (evt : EpollEvent)
      → interest w fd ≡ none
      → ((os.epoll_ctl epoll_fd epoll_ctl_mod fd evt w).0.value ≡ minus_one)
        × ((os.epoll_ctl epoll_fd epoll_ctl_mod fd evt w).0.errno ≡ enoent)
        × (interest (os.epoll_ctl epoll_fd epoll_ctl_mod fd evt w).1 fd ≡ none)
  -- EPOLL_CTL_ADD enters a handle that is not there, or fails with an error and enters nothing.
  pub add_entry :
      (w : W) (fd : IoHandle) (evt : EpollEvent)
      → interest w fd ≡ none
      → (((os.epoll_ctl epoll_fd epoll_ctl_add fd evt w).0.value ≡ pos 0)
          × (interest (os.epoll_ctl epoll_fd epoll_ctl_add fd evt w).1 fd ≡ some evt))
        ⊎ (((os.epoll_ctl epoll_fd epoll_ctl_add fd evt w).0.value ≡ minus_one)
            × ((os.epoll_ctl epoll_fd epoll_ctl_add fd evt w).0.errno ≢ 0)
            × (interest (os.epoll_ctl epoll_fd epoll_ctl_add fd evt w).1 fd ≡ none))

module _ {W : Type 0} {os : Kernel W} {epoll_fd : IoHandle}
    {interest : W → IoHandle → Option EpollEvent} (laws : EpollLaws os epoll_fd interest) where
  -- The outcome of `arm` on an instance: armed as asked, or an error with the entry as it was.
  abbrev pub Armed : Option EpollEvent → IoHandle → EpollEvent → ErrorCode × W → Type 0
  Armed before fd evt (code, w) =
      ((code ≡ ok_code) × (interest w fd ≡ some evt))
      ⊎ ((code ≢ ok_code) × (interest w fd ≡ before))

  arm_add-Armed :
      (fd : IoHandle) (evt : EpollEvent) (w : W)
      → interest w fd ≡ none
      → Armed none fd evt (arm_add os epoll_fd fd evt w)
  unfolding arm_add
  arm_add-Armed fd evt w e = elim (laws.add_entry w fd evt e) [
    | inl (v, i) ↦ rw v (inl (refl, i))
    | inr (v, n, i) ↦ rw v (inr (n, i))
  ]

  abbrev errno_of : IoHandle → EpollEvent → W → ErrorCode
  errno_of fd evt w = (os.epoll_ctl epoll_fd epoll_ctl_mod fd evt w).0.errno

  -- What EPOLL_CTL_MOD alone comes to: its error, if it fails.
  abbrev pub modified : IoHandle → EpollEvent → W → ErrorCode × W
  modified fd evt w =
      let (r, w') = os.epoll_ctl epoll_fd epoll_ctl_mod fd evt w in
      (if r.value ==ℤ minus_one then r.errno else ok_code, w')

  -- `arm` either answers OK, and then the handle is armed once for exactly the events asked for, or it
  -- answers an error, and then its entry in the list, or that it has none, is unchanged. A handle that is
  -- in the list is never added: the answer and the state are those of EPOLL_CTL_MOD, errors included.
  pub arm-Armed :
      (fd : IoHandle) (events ptr : ℕ) (w : W)
      → Armed
          (interest w fd)
          fd
          (record { events = with_oneshot events; ptr = ptr })
          (arm os epoll_fd fd events ptr w)
        × ((interest w fd ≡ none)
            ⊎ (arm os epoll_fd fd events ptr w
                ≡ modified fd (record { events = with_oneshot events; ptr = ptr }) w))
  unfolding arm
  arm-Armed fd events ptr w =
      let evt : EpollEvent = record { events = with_oneshot events; ptr = ptr } in
      elim (Option-cases (interest w fd)) [
        | inl missing ↦
            let (v, n, i) = laws.mod_no_entry w fd evt missing in
            rw (v, n, missing) (arm_add-Armed fd evt _ i, inl refl)
        | inr (old, present) ↦ elim (laws.mod_entry w fd evt old present) [
          | inl (v, i) ↦ rw (v, present) (inl (refl, i), inr refl)
          | inr (v, bad, other, i) ↦
              let guard : (errno_of fd evt w == enoent) ≡ false =
                key_other (errno_of fd evt w) enoent other in
              rw (v, guard, present) (inr (bad, i), inr refl)
        ]
      ]
