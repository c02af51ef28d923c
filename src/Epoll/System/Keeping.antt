-- ===== src/Epoll/System/Keeping.antt =====
-- What it is for the threads of a service to keep the invariant.
use baba_io.Base.{ℕ, ◌≡◌, Option}
use baba_io.Epoll.State.{Service}
use baba_io.Epoll.Memory.{M, ok}
use baba_io.Epoll.System.Invariant.{Phase, Inv}

-- The code returns, in a service that satisfies the invariant.
abbrev pub Keeps : {W : Type 0} → Service W → (ℕ → Option ℕ) → M W (Unit {0}) → Type 0
Keeps {W} s doom m = (u : Service W) × (ph : ℕ → Phase) × (m s ≡ ok (tt, u)) × Inv u ph doom

pub keeps :
    {W : Type 0} (s : Service W) {u : Service W} {ph : ℕ → Phase} {doom : ℕ → Option ℕ}
    (m : M W (Unit {0}))
    → (m s ≡ ok (tt, u)) × Inv u ph doom
    → Keeps s doom m
keeps s m (runs, inv) = (_, _, runs, inv)
