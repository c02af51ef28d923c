-- ===== src/Os/TimerImpl/Units.antt =====
-- The time that a timer is set to.
use baba_io.Base.{ℕ, ◌+◌, ◌*◌, ◌<◌, ◌≡◌, arith}
use baba_io.Os.TimerImpl.{expiration}

-- The seconds and nanoseconds are together exactly the milliseconds asked for, and the nanoseconds
-- are below one second, so that the call accepts them: the product of 32 bits never wraps.
pub expiration_exact :
    (timeout_ms : ℕ)
    → ((expiration timeout_ms).sec * 1000000000 + (expiration timeout_ms).nsec
        ≡ timeout_ms * 1000000)
      × ((expiration timeout_ms).nsec < 1000000000)
unfolding expiration
expiration_exact timeout_ms = omega arith
