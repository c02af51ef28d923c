-- ===== src/Steps.antt =====
-- Code that runs on a state, and returns a value or ends in a fault: what the reactors that have a
-- state of their own share.
use baba_io.Base.{Option, none, some}
use baba_io.Epoll.Memory.{Run, ok, fault, Fault}

abbrev pub Steps : Type 0 → Type 0 → Type 0
Steps S A = S → Run (A × S)

abbrev pub pure : {S A : Type 0} → A → Steps S A
pure a s = ok (a, s)

abbrev pub fail : {S A : Type 0} → Fault → Steps S A
fail f s = fault f

abbrev pub bind : {S A B : Type 0} → Run (A × S) → (A → Steps S B) → Run (B × S)
bind (ok (a, s)) k = k a s
bind (fault f) k = fault f

infixl 5 ◌>>=◌ ◌>>◌
abbrev pub ◌>>=◌ : {S A B : Type 0} → Steps S A → (A → Steps S B) → Steps S B
◌>>=◌ m k s = bind (m s) k

abbrev pub ◌>>◌ : {S B : Type 0} → Steps S (Unit {0}) → Steps S B → Steps S B
◌>>◌ m k s = bind (m s) (λ _. k)

abbrev pub update : {S : Type 0} → (S → S) → Steps S (Unit {0})
update f s = ok (tt, f s)

abbrev pub require : {S A : Type 0} → Fault → Option A → Steps S A
require f none s = fault f
require f (some a) s = ok (a, s)
