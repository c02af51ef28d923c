-- ===== src/Epoll/Reactor/Interrupts.antt =====
-- How the reactor empties the self pipe when it has been interrupted.
use baba_io.Base.{ℕ, zero, suc, ◌<◌, ◌≡◌, ◌≢◌, refl, false, not, ◌&&◌, ◌==◌, arith}
use baba_io.Os.Codes.{ErrorCode, ok_code, IoHandle, eagain}
use baba_io.Os.Kernel.{Kernel}
use baba_io.Os.FileImpl
use baba_io.Epoll.State.{Service}
use baba_io.Epoll.Memory.{ok, fault, out_of_fuel}
use baba_io.Epoll.Reactor.{consume}

keeps_reading : (e : ErrorCode) → e ≢ eagain → (not (e == ok_code) && (e == eagain)) ≡ false
keeps_reading e h = ground arith

module _ {W : Type 0} (os : Kernel W) where
  -- So many reads of a handle succeed, and the next finds nothing left.
  unfoldable pub Drains : IoHandle → ℕ → W → W → Type 0
  Drains fd zero w w' = let (r, w1) = FileImpl.read os fd 0 1023 w in (r.ec ≡ eagain) × (w1 ≡ w')
  Drains fd (suc n) w w' =
      let (r, w1) = FileImpl.read os fd 0 1023 w in (r.ec ≡ ok_code) × Drains fd n w1 w'

  -- The self pipe is emptied with one round more than it holds reads; nothing else changes.
  pub consume-Drains :
      (n fuel : ℕ) (s : Service W) (w' : W)
      → Drains s.reactor.interrupter_fd n s.world w'
      → n < fuel
      → consume os fuel s ≡ ok (tt, record s { world = w' })
  unfolding consume Drains
  consume-Drains n zero s w' d h = absurd (omega arith)
  consume-Drains zero (suc fuel) s w' (e, same) h = rw (e, same) refl
  consume-Drains (suc n) (suc fuel) s w' (e, d) h =
      rw e (consume-Drains n fuel (record s { world = _ }) w' d (omega arith))

  -- Where no read of the self pipe ever answers EAGAIN, the reactor never leaves the loop: with any
  -- number of rounds it asks for more. A closed or failing pipe is such a case.
  pub consume-endless :
      (fuel : ℕ) (s : Service W)
      → ((w : W) → (FileImpl.read os s.reactor.interrupter_fd 0 1023 w).0.ec ≢ eagain)
      → consume os fuel s ≡ fault out_of_fuel
  unfolding consume
  consume-endless zero s h = refl
  consume-endless (suc fuel) s h =
      let (r, w) = FileImpl.read os s.reactor.interrupter_fd 0 1023 s.world in
      rw (keeps_reading r.ec (h s.world)) (consume-endless fuel (record s { world = w }) h)
