-- ===== src/Epoll/Proactor/Callbacks.antt =====
-- What the completion of an operation does: one call of the user's callback, or none.
use baba_io.Base.{
  ℕ, pos, ◌==ℤ◌, ◌≡◌, Bool, false, ◌&&◌, Option, none, some, ◌∷◌, arith, insert, if◌then◌else◌,
  ◌==◌,
}
use baba_io.Epoll.State.{
  Service, Event, Descriptor, Complete, recved, sended, expired, connected, accepted, finalise,
  Call, code_call, bytes_call,
}
use baba_io.Epoll.Memory.{ok, with_register}
use baba_io.Epoll.Proactor.{run_complete}

-- The event whose completion it is.
abbrev pub owner : Complete → ℕ
owner (recved evt e cb bytes) = evt
owner (sended evt e cb bytes) = evt
owner (expired evt e cb) = evt
owner (connected evt e cb) = evt
owner (accepted evt e cb) = evt
owner (finalise evt final_evt) = final_evt

-- The call that the user is owed: a receive of 0 bytes without an error reports that the peer has
-- closed the connection. A final event calls nobody.
abbrev pub call_of : Complete → Option Call
call_of (recved evt e cb bytes) =
    some (if (e == 0) && (bytes ==ℤ pos 0) then bytes_call cb 9000 bytes else bytes_call cb e bytes)
call_of (sended evt e cb bytes) = some (bytes_call cb e bytes)
call_of (expired evt e cb) = some (code_call cb e)
call_of (connected evt e cb) = some (code_call cb e)
call_of (accepted evt e cb) = some (code_call cb e)
call_of (finalise evt final_evt) = none

-- The state after a completion: the event is no longer active and holds no completion.
abbrev pub completed : {W : Type 0} → Service W → (evt : ℕ) → Event → Bool → Call → Service W
completed s evt e in_scope c =
    record (with_register s
      (insert s.registrar.register evt (record e { complete = none; has_active_event = false }))) {
        calls = if in_scope then c ∷ s.calls else s.calls;
      }

module _ {W : Type 0} (s : Service W) (evt io_desc : ℕ) (e : Event) (d : Descriptor)
    (he : s.registrar.register evt ≡ some e) (hd : e.descriptor ≡ some io_desc)
    (hs : s.descriptors io_desc ≡ some d) where
  -- The completion of an operation never faults. It calls the callback exactly when the object is in
  -- scope, once and with what the completion carries, and leaves the event inactive and empty.
  pub run_complete_lem :
      (c : Complete) (k : Call)
      → owner c ≡ evt
      → call_of c ≡ some k
      → run_complete c s ≡ ok (tt, completed s evt e d.in_scope k)
  unfolding run_complete
  run_complete_lem (recved p code cb bytes) k o h = ground arith
  run_complete_lem (sended p code cb bytes) k o h = ground arith
  run_complete_lem (expired p code cb) k o h = ground arith
  run_complete_lem (connected p code cb) k o h = ground arith
  run_complete_lem (accepted p code cb) k o h = ground arith
  run_complete_lem (finalise p q) k o h = cc
