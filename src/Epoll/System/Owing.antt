-- ===== src/Epoll/System/Owing.antt =====
-- What a reaction comes to is a completion that owes the user a call.
use baba_io.Base.{ℕ, ◌≡◌, refl, Bool, true, false, some, ◌==◌, if◌then◌else◌}
use baba_io.Os.Codes.{ErrorCode, ok_code, IoHandle}
use baba_io.Os.Kernel.{Kernel}
use baba_io.Epoll.State.{
  React, recv_react, send_react, timer_react, connect_react, accept_react, Call, Complete,
}
use baba_io.Epoll.Proactor.Callbacks.{owner, call_of}
use baba_io.Epoll.Proactor.Reactions.{reacts_on, outcome, transferred, failed}
use baba_io.Epoll.System.Moves.{some_eq}

-- The completion is one of the event, and some call is owed for it.
abbrev pub Owes : ℕ → Complete → Type 0
Owes p c = (owner c ≡ p) × ((k : Call) × (call_of c ≡ some k))

if-Owes :
    {W : Type 0} (b : Bool) (p : ℕ) (x y : Complete × W)
    → Owes p x.0
    → Owes p y.0
    → Owes p (if b then x else y).0
if-Owes true p x y h k = h
if-Owes false p x y h k = k

module _ {W : Type 0} (os : Kernel W) (p : ℕ) (e : ErrorCode) (fd : IoHandle) (w : W) where
  failed-Owes : (r : React) → reacts_on r ≡ some p → Owes p (failed os r e)
  failed-Owes (recv_react evt buffer size cb) h = (some_eq h, (_, refl))
  failed-Owes (send_react evt buffer size cb) h = (some_eq h, (_, refl))
  failed-Owes (timer_react evt cb) h = (some_eq h, (_, refl))
  failed-Owes (connect_react evt cb code) h = (some_eq h, (_, refl))
  failed-Owes (accept_react evt accepting cb) h = cc

  transferred-Owes :
      (r : React) (live : Bool) → reacts_on r ≡ some p → Owes p (transferred os r live fd w).0
  transferred-Owes (recv_react evt buffer size cb) true h = (some_eq h, (_, refl))
  transferred-Owes (recv_react evt buffer size cb) false h = (some_eq h, (_, refl))
  transferred-Owes (send_react evt buffer size cb) true h = (some_eq h, (_, refl))
  transferred-Owes (send_react evt buffer size cb) false h = (some_eq h, (_, refl))
  transferred-Owes (timer_react evt cb) true h = (some_eq h, (_, refl))
  transferred-Owes (timer_react evt cb) false h = (some_eq h, (_, refl))
  transferred-Owes (connect_react evt cb code) live h = (some_eq h, (_, refl))
  transferred-Owes (accept_react evt accepting cb) live h = cc

  -- What a reaction comes to is a completion of the same event, which is owed a call.
  pub outcome-Owes :
      (r : React) (live : Bool) → reacts_on r ≡ some p → Owes p (outcome os r e live fd w).0
  outcome-Owes r live h =
      if-Owes (e == ok_code) p (transferred os r live fd w) (failed os r e, w)
        (transferred-Owes r live h) (failed-Owes r h)
