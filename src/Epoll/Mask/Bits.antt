-- ===== src/Epoll/Mask/Bits.antt =====
-- detail/os/reactor/epoll/epoll_reactor_event.cpp: the bits of the event mask.
use baba_io.Base.{ℕ, ◌≡◌, true, false, arith}
use baba_io.Epoll.Mask.{has_in, has_out, set_in, set_out, clear_in, clear_out}

-- What each of the four operations makes of each of the two bits.
pub record ChangesBits (m : ℕ) : Type 0 where
  pub in-set_in : has_in (set_in m) ≡ true
  pub out-set_in : has_out (set_in m) ≡ has_out m
  pub in-set_out : has_in (set_out m) ≡ has_in m
  pub out-set_out : has_out (set_out m) ≡ true
  pub in-clear_in : has_in (clear_in m) ≡ false
  pub out-clear_in : has_out (clear_in m) ≡ has_out m
  pub in-clear_out : has_in (clear_out m) ≡ has_in m
  pub out-clear_out : has_out (clear_out m) ≡ false

-- Each operation on the mask of a descriptor changes its own bit, and leaves the bit of the other
-- direction as it is: a pending read never loses its interest to a write, nor the other way.
pub mask_bits : (m : ℕ) → ChangesBits m
unfolding has_in has_out set_in set_out clear_in clear_out
mask_bits m = ground arith
