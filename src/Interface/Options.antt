-- ===== src/Interface/Options.antt =====
-- src/socket_option.cpp and src/pimpl/socket_option_pimpl.h.
use baba_io.Base.{ℕ, ◌≡◌, refl, Bool, Option, none, some, List}
use baba_io.Os.Codes.{ErrorCode, ok_code, IoHandle}
use baba_io.Os.Kernel.{Kernel}
use baba_io.Net.Storage.{AddrStorage}
use baba_io.Net.IpAddress
use baba_io.Net.SocketOption
use baba_io.Net.SocketOption.{
  IntOption, AddressOption, GroupOption, default_int_option, default_address_option,
  default_group_option,
}
use baba_io.Net.SocketCalls.Options
use baba_io.Interface.Values
use baba_io.Interface.Values.{through}
use baba_io.Interface.Addresses.{Address}

-- The moves of the implementations, member by member: a number stays, and an address is moved.
abbrev moved_int : IntOption → IntOption × IntOption
moved_int o = (o, o)

unfoldable moved_one : AddressOption → AddressOption × AddressOption
unfolding IpAddress.moved
moved_one o =
    let (addr, rest) = IpAddress.moved o.addr in
    (record o { addr = addr }, record o { addr = rest })

unfoldable moved_both : GroupOption → GroupOption × GroupOption
unfolding IpAddress.moved
moved_both o =
    let (iface, iface_rest) = IpAddress.moved o.iface in
    let (mcast, mcast_rest) = IpAddress.moved o.mcast in
    (record o { iface = iface; mcast = mcast }, record o { iface = iface_rest; mcast = mcast_rest })

abbrev pub ReuseAddress : Type 0
ReuseAddress = Option IntOption

unfoldable pub new_reuse_address : ReuseAddress
unfolding default_int_option
new_reuse_address = some default_int_option

unfoldable pub reuse_address : Bool → ReuseAddress
unfolding SocketOption.reuse_address
reuse_address val = some (SocketOption.reuse_address val)

unfoldable pub copy_reuse_address : ReuseAddress → Option ReuseAddress
copy_reuse_address other = Values.copied other

unfoldable pub copy_assign_reuse_address : (self other : ReuseAddress) → Option ReuseAddress
copy_assign_reuse_address self other = Values.copy_assigned self other

unfoldable pub move_reuse_address : ReuseAddress → Option (ReuseAddress × ReuseAddress)
move_reuse_address tmp = Values.moved moved_int tmp

unfoldable pub move_assign_reuse_address : (self tmp : ReuseAddress) → ReuseAddress × ReuseAddress
move_assign_reuse_address self tmp = Values.move_assigned self tmp

abbrev pub SetOutgoingInterface : Type 0
SetOutgoingInterface = Option AddressOption

unfoldable pub new_outgoing_interface : SetOutgoingInterface
unfolding default_address_option
new_outgoing_interface = some default_address_option

unfoldable pub set_outgoing_interface : Address → Option SetOutgoingInterface
unfolding SocketOption.set_outgoing_interface
set_outgoing_interface addr =
    through addr (λ a. some (some (SocketOption.set_outgoing_interface a)))

unfoldable pub copy_outgoing_interface : SetOutgoingInterface → Option SetOutgoingInterface
copy_outgoing_interface other = Values.copied other

unfoldable pub copy_assign_outgoing_interface :
    (self other : SetOutgoingInterface) → Option SetOutgoingInterface
copy_assign_outgoing_interface self other = Values.copy_assigned self other

unfoldable pub move_outgoing_interface :
    SetOutgoingInterface → Option (SetOutgoingInterface × SetOutgoingInterface)
unfolding moved_one
move_outgoing_interface tmp = Values.moved moved_one tmp

unfoldable pub move_assign_outgoing_interface :
    (self tmp : SetOutgoingInterface) → SetOutgoingInterface × SetOutgoingInterface
move_assign_outgoing_interface self tmp = Values.move_assigned self tmp

abbrev pub JoinGroup : Type 0
JoinGroup = Option GroupOption

unfoldable pub new_join_group : JoinGroup
unfolding default_group_option
new_join_group = some default_group_option

unfoldable pub join_group :
    (iface : Address) → (iface_index : ℕ) → (mcast : Address) → Option JoinGroup
unfolding SocketOption.join_group
join_group iface iface_index mcast =
    through iface (λ a. through mcast (λ b. some (some (SocketOption.join_group a iface_index b))))

unfoldable pub copy_join_group : JoinGroup → Option JoinGroup
copy_join_group other = Values.copied other

unfoldable pub copy_assign_join_group : (self other : JoinGroup) → Option JoinGroup
copy_assign_join_group self other = Values.copy_assigned self other

unfoldable pub move_join_group : JoinGroup → Option (JoinGroup × JoinGroup)
unfolding moved_both
move_join_group tmp = Values.moved moved_both tmp

unfoldable pub move_assign_join_group : (self tmp : JoinGroup) → JoinGroup × JoinGroup
move_assign_join_group self tmp = Values.move_assigned self tmp

module _ {W : Type 0} (os : Kernel W) where
  unfoldable pub set_reuse_address : IoHandle → ReuseAddress → W → Option (ErrorCode × W)
  unfolding Options.set_int_option
  set_reuse_address fd opt w = through opt (λ o. some (Options.set_int_option os fd o w))

  unfoldable pub set_interface : IoHandle → SetOutgoingInterface → W → Option (ErrorCode × W)
  unfolding Options.set_address_option
  set_interface fd opt w = through opt (λ o. some (Options.set_address_option os fd o w))

  unfoldable pub set_group : IoHandle → JoinGroup → W → Option (ErrorCode × W)
  unfolding Options.set_group_option
  set_group fd opt w = through opt (λ o. some (Options.set_group_option os fd o w))

  -- The code, the option afterwards, and the world.
  unfoldable pub get_reuse_address :
      IoHandle → ReuseAddress → W → Option (ErrorCode × ReuseAddress × W)
  unfolding Options.get_int_option
  get_reuse_address fd opt w =
      through opt
        (λ o. let ((e, after), v) = Options.get_int_option os fd o w in some (e, some after, v))

  unfoldable pub get_interface :
      (before : ℕ)
      → (addr_before : AddrStorage) → IoHandle
      → SetOutgoingInterface
      → W
      → Option (ErrorCode × SetOutgoingInterface × W)
  unfolding Options.get_address_option
  get_interface before addr_before fd opt w = through opt (λ o.
      let ((e, after), v) = Options.get_address_option os before addr_before fd o w in
      some (e, some after, v))

  unfoldable pub get_group :
      (inet_pton : ℕ → List ℕ → Option ℕ)
      → (before : ℕ) → (addr_before : AddrStorage) → IoHandle
      → JoinGroup
      → W
      → Option (ErrorCode × JoinGroup × W)
  unfolding Options.get_group_option
  get_group inet_pton before addr_before fd opt w = through opt (λ o.
      let ((e, after), v) = Options.get_group_option os inet_pton before addr_before fd o w in
      some (e, some after, v))

  -- A group option that is moved into another by a constructor goes on to be set there as it was
  -- before, but what is left of it has no addresses: to set it makes no call and reports success. One
  -- that is moved by an assignment is set where it went, and to set the rest, or to copy it, dereferences
  -- a null pointer.
  pub move-set_group :
      (opt : GroupOption) (self : JoinGroup) (fd : IoHandle) (w : W)
      → (through (move_join_group (some opt)) (λ (x, rest). set_group fd x w)
          ≡ some (Options.set_group_option os fd opt w))
        × (through (move_join_group (some opt)) (λ (x, rest). set_group fd rest w)
            ≡ some (ok_code, w))
        × (set_group fd (move_assign_join_group self (some opt)).0 w
            ≡ some (Options.set_group_option os fd opt w))
        × (set_group fd (move_assign_join_group self (some opt)).1 w ≡ none)
        × (copy_join_group (move_assign_join_group self (some opt)).1 ≡ none)
  unfolding move_join_group set_group move_assign_join_group copy_join_group
  move-set_group opt self fd w = (refl, refl, refl, refl, refl)
