-- ===== src/Net/SocketOption.antt =====
-- detail/os/socket/socket_option.h and socket_option.cpp: the option classes. The base class of all is
-- a pair of a level and a name, 0 and 0 where an option is default constructed.
use baba_io.Base.{ℕ, ℤ, pos, ◌%◌, ◌^◌, Bool, if◌then◌else◌}
use baba_io.Net.IpAddress.{IpAddress, default_address}

-- SOL_SOCKET, SO_REUSEADDR, IPPROTO_IP, IP_MULTICAST_IF and IP_ADD_MEMBERSHIP.
abbrev pub sol_socket : ℕ
sol_socket = 1

abbrev pub so_reuseaddr : ℕ
so_reuseaddr = 2

abbrev pub ipproto_ip : ℕ
ipproto_ip = 0

abbrev pub ip_multicast_if : ℕ
ip_multicast_if = 32

abbrev pub ip_add_membership : ℕ
ip_add_membership = 35

pub record IntOption : Type 0 where
  pub level : ℕ
  pub optname : ℕ
  pub optval : ℤ

pub record AddressOption : Type 0 where
  pub level : ℕ
  pub optname : ℕ
  pub addr : IpAddress

pub record GroupOption : Type 0 where
  pub level : ℕ
  pub optname : ℕ
  pub iface : IpAddress
  pub iface_index : ℕ
  pub mcast : IpAddress

-- The default constructors, which the derived classes inherit.
unfoldable pub default_int_option : IntOption
default_int_option = record { level = 0; optname = 0; optval = pos 0 }

unfoldable pub default_address_option : AddressOption
unfolding default_address
default_address_option = record { level = 0; optname = 0; addr = default_address }

unfoldable pub default_group_option : GroupOption
unfolding default_address
default_group_option = record {
  level = 0;
  optname = 0;
  iface = default_address;
  iface_index = 0;
  mcast = default_address;
}

-- The constructors with a value.
unfoldable pub reuse_address : Bool → IntOption
reuse_address val = record {
  level = sol_socket;
  optname = so_reuseaddr;
  optval = pos (if val then 1 else 0);
}

unfoldable pub set_outgoing_interface : IpAddress → AddressOption
set_outgoing_interface addr = record { level = ipproto_ip; optname = ip_multicast_if; addr = addr }

unfoldable pub join_group :
    (iface : IpAddress) → (iface_index : ℕ) → (mcast : IpAddress) → GroupOption
join_group iface iface_index mcast = record {
  level = ipproto_ip;
  optname = ip_add_membership;
  iface = iface;
  iface_index = iface_index % 2 ^ 32;
  mcast = mcast;
}
