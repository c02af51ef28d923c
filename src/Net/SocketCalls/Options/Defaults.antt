-- ===== src/Net/SocketCalls/Options/Defaults.antt =====
-- What `get_option` makes of an option that is default constructed, the way to ask for its value.
use baba_io.Base.{ℕ, ◌≡◌, refl, Option, List}
use baba_io.Os.Codes.{ok_code, IoHandle}
use baba_io.Os.Kernel.{Kernel}
use baba_io.Net.Storage.{AddrStorage}
use baba_io.Net.SocketOption.{default_int_option, default_address_option, default_group_option}
use baba_io.Net.SocketCalls.Options.{get_int_option, get_address_option, get_group_option}

module _ {W : Type 0} (os os' : Kernel W) (fd : IoHandle) (w : W)
    (inet_pton : ℕ → List ℕ → Option ℕ) (before : ℕ) (addr_before : AddrStorage) where
  -- Asked for a default constructed option, `get_option` never finds its value. For an int option it
  -- answers by what the system says of level 0 and name 0 alone, so that systems that agree there and
  -- nowhere else give the same answer; for an address or a group option it makes no call, reports
  -- success, and leaves the option as it is.
  pub default-get_option :
      os.getsockopt fd 0 0 0 4 w ≡ os'.getsockopt fd 0 0 0 4 w
      → (get_int_option os fd default_int_option w ≡ get_int_option os' fd default_int_option w)
        × (get_address_option os before addr_before fd default_address_option w
            ≡ ((ok_code, default_address_option), w))
        × (get_group_option os inet_pton before addr_before fd default_group_option w
            ≡ ((ok_code, default_group_option), w))
  unfolding get_int_option get_address_option get_group_option default_int_option
      default_address_option default_group_option
  default-get_option h = (rw h refl, refl, refl)
