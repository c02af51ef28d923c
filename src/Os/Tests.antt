-- ===== src/Os/Tests.antt =====
-- A small operating system that keeps the interest list of one epoll instance, and the theorems about
-- the wrappers at it.
use baba_io.Base.{
  ◌⊎◌, ℕ, ◌+◌, ◌*◌, ◌<◌, ℤ, pos, minus_one, ◌==ℤ◌, ◌≡◌, refl, inl, Option, none, some, [], arith,
  if◌then◌else◌,
}
use baba_io.Os.Codes.{IoHandle, enoent, eagain}
use baba_io.Os.Kernel.{Kernel, Ret, CtlOp, EpollEvent, epoll_ctl_add, epoll_ctl_mod, epoll_ctl_del}
use baba_io.Os.EpollImpl.{with_oneshot, arm}
use baba_io.Os.EpollImpl.Arming.{EpollLaws, Armed, modified, arm-Armed}
use baba_io.Os.TimerImpl.{expiration}
use baba_io.Os.TimerImpl.Units.{expiration_exact}
use baba_io.Net.Storage.{zeroed}

abbrev pub Interest : Type 0
Interest = IoHandle → Option EpollEvent

abbrev pub entered : Interest → IoHandle → Option EpollEvent → Interest
entered w fd entry = λ other. if fd ==ℤ other then entry else w other

abbrev pub good : ℤ → Ret
good value = record { value = value; errno = 0 }

abbrev pub bad : ℕ → Ret
bad errno = record { value = minus_one; errno = errno }

abbrev pub ctl_mod : Option EpollEvent → IoHandle → EpollEvent → Interest → Ret × Interest
ctl_mod none fd evt w = (bad enoent, w)
ctl_mod (some old) fd evt w = (good (pos 0), entered w fd (some evt))

abbrev pub ctl_add : Option EpollEvent → IoHandle → EpollEvent → Interest → Ret × Interest
ctl_add none fd evt w = (good (pos 0), entered w fd (some evt))
ctl_add (some old) fd evt w = (bad 17, w)

abbrev pub ctl : CtlOp → IoHandle → EpollEvent → Interest → Ret × Interest
ctl epoll_ctl_add fd evt w = ctl_add (w fd) fd evt w
ctl epoll_ctl_mod fd evt w = ctl_mod (w fd) fd evt w
ctl epoll_ctl_del fd evt w = (good (pos 0), entered w fd none)

-- Receives nothing, sends 5 bytes, and finds the self pipe empty.
abbrev pub small_kernel : Kernel Interest
small_kernel = record {
  epoll_create1 = λ w. (good (pos 3), w);
  epoll_ctl = λ epoll_fd op fd evt w. ctl op fd evt w;
  epoll_wait = λ epoll_fd size w. (good (pos 0), [], w);
  close = λ fd w. w;
  read = λ fd buffer size w. (bad eagain, w);
  write = λ fd buffer size w. (good (pos 1), w);
  pipe = λ w. (good (pos 0), (pos 4, pos 5), w);
  fcntl_getfl = λ fd w. (good (pos 0), w);
  fcntl_setfl = λ fd flags w. (good (pos 0), w);
  timerfd_create = λ w. (good (pos 6), w);
  timerfd_settime = λ fd e w. (good (pos 0), w);
  recv = λ fd buffer size w. (good (pos 0), w);
  send = λ fd buffer size w. (good (pos 5), w);
  socket = λ af type w. (good (pos 8), w);
  accept = λ fd sock_len w. (good (pos 9), zeroed, w);
  connect = λ fd sock sock_len w. (good (pos 0), w);
  sendto = λ fd buffer size sock sock_len w. (good (pos 5), w);
  recvfrom = λ fd buffer size sock_len w. (good (pos 0), zeroed, w);
  shutdown = λ fd how w. (good (pos 0), w);
  bind = λ fd sock sock_len w. (good (pos 0), w);
  listen = λ fd backlog w. (good (pos 0), w);
  setsockopt = λ fd level name value len w. (good (pos 0), w);
  getsockopt = λ fd level name before len w. (good (pos 0), before, w);
}

abbrev pub nobody : Interest
nobody = λ fd. none

entered_self : (w : Interest) (fd : IoHandle) (e : Option EpollEvent) → entered w fd e fd ≡ e
entered_self w (pos n) e = ground arith
entered_self w (ℤ.negsuc n) e = ground arith

small_laws : EpollLaws small_kernel (pos 3) (λ w fd. w fd)
small_laws = record {
  mod_entry = λ w fd evt old h. rw h (inl (refl, entered_self w fd (some evt)));
  mod_no_entry = λ w fd evt h. rw h (refl, refl, h);
  add_entry = λ w fd evt h. rw h (inl (refl, entered_self w fd (some evt)));
}

arm-Armed_example :
    Armed small_laws
      (nobody (pos 7))
      (pos 7)
      (record { events = with_oneshot 5; ptr = 2 })
      (arm small_kernel (pos 3) (pos 7) 5 2 nobody)
    × ((nobody (pos 7) ≡ none)
        ⊎ (arm small_kernel (pos 3) (pos 7) 5 2 nobody
            ≡ modified small_laws (pos 7) (record { events = with_oneshot 5; ptr = 2 }) nobody))
arm-Armed_example = arm-Armed small_laws (pos 7) 5 2 nobody

expiration_exact_example :
    ((expiration 1500).sec * 1000000000 + (expiration 1500).nsec ≡ 1500 * 1000000)
    × ((expiration 1500).nsec < 1000000000)
expiration_exact_example = expiration_exact 1500

arm_new_handle :
    (arm small_kernel (pos 3) (pos 7) 5 2 nobody).1 (pos 7)
    ≡ some (record { events = 0x4000_0005; ptr = 2 })
unfolding arm
arm_new_handle = refl
