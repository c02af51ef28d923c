-- ===== src/Interface/Tests.antt =====
-- The classes that users see at sockets of a service with one connection, descriptor 0 on handle 7.
use baba_io.Base.{ℕ, ◌≡◌, refl, arith, pos, true, none, some, List, [], ◌∷◌, insert}
use baba_io.Os.Tests.{Interest, nobody, small_kernel}
use baba_io.Net.Storage.{zeroed}
use baba_io.Net.IpEndpoint.{IpEndpoint}
use baba_io.Epoll.State.{Service, Descriptor, Event, Registrar}
use baba_io.Epoll.Service.{initial}
use baba_io.Epoll.Io.Connector.{AsyncConnector}
use baba_io.Epoll.Io.Tcp.{AsyncTcp}
use baba_io.Net.SocketOption.{GroupOption, ipproto_ip, ip_add_membership}
use baba_io.Interface.Connectors.{TcpConnector}
use baba_io.Interface.Sockets.{TcpSocket, move_assign, destroy}
use baba_io.Interface.Sockets.Moving.{move_assign-destroy}
use baba_io.Epoll.Io.Tcp.Destroying.{IsOpen, destroyed}
use baba_io.Epoll.Registrar.{fresh_event}
use baba_io.Epoll.Registrar.Ids.{IsRegistrar}
use baba_io.Epoll.Memory.{ok, pure, ◌>>=◌, ◌>>◌}

abbrev local : IpEndpoint
local = record {
  sock = zeroed;
  sock_len = 16;
  address = record { addr = 0x0100_007f; af = 2 };
  port = 80;
}

abbrev socket : Descriptor
socket = record {
  fd = pos 7;
  read_event = some 0;
  write_event = some 1;
  event_mask = 0;
  in_scope = true;
}

-- The events of a receive, on strand 0, and of a send.
abbrev receiver : Event
receiver = record fresh_event { descriptor = some 0; strand = some 0; id = 0 }

abbrev sender : Event
sender = record fresh_event { descriptor = some 0; strand = some 0; id = 1 }

abbrev registrar : Registrar
registrar = record { register = insert (insert (λ k. none) 0 receiver) 1 sender; id_generator = 2 }

registrar-IsRegistrar : IsRegistrar registrar
registrar-IsRegistrar = record { keyed = λ k e h. ground arith; below = λ k e h. ground arith }

abbrev service : Service Interest
service = record (initial zeroed 0 nobody) {
  registrar = registrar;
  descriptors = insert (λ k. none) 0 socket;
  next_descriptor = 1;
}

abbrev connection : AsyncTcp
connection = record {
  strand_for_user = none;
  strand = none;
  descriptor = none;
  recver = record { evt = none };
  sender = record { evt = none };
  ep = local;
}

abbrev open_connection : AsyncTcp
open_connection = record connection {
  strand = some 0;
  descriptor = some 0;
  recver = record { evt = some 0 };
  sender = record { evt = some 1 };
}

open_connection-IsOpen : IsOpen service open_connection 0 0 0 1 socket receiver sender
open_connection-IsOpen = record {
  runs_on = refl;
  points = refl;
  held = refl;
  in_scope = refl;
  receives = refl;
  sends = refl;
  receiver = refl;
  sender = refl;
  keys = registrar-IsRegistrar;
  room = omega arith;
}

abbrev source : AsyncConnector
source = record {
  strand_for_user = none;
  strand = some 0;
  descriptor = some 0;
  connector = record { evt = none };
  connector_ep = local;
}

abbrev idle_socket : TcpSocket
idle_socket = record { strand = none; pimpl = some connection }

abbrev open_socket : TcpSocket
open_socket = record { strand = some 5; pimpl = some open_connection }

abbrev connector : TcpConnector
connector = record { strand = some 5; pimpl = some source }

abbrev sample_ntop : ℕ → ℕ → List ℕ
sample_ntop family a = b'.' ∷ []

-- 239.0.0.1 on any interface.
abbrev group : GroupOption
group = record {
  level = ipproto_ip;
  optname = ip_add_membership;
  iface = record { addr = 0; af = 2 };
  iface_index = 0;
  mcast = record { addr = 0x0100_00ef; af = 2 };
}

move_assign-destroy_example :
    (move_assign small_kernel open_socket idle_socket >>= λ (x, rest).
    destroy small_kernel rest >> pure x)
      service
    ≡ ok (idle_socket, destroyed small_kernel service 0 socket 0 1 receiver sender)
move_assign-destroy_example =
    move_assign-destroy small_kernel open_socket idle_socket service open_connection 0 0 0 1 socket
      receiver sender refl open_connection-IsOpen refl refl
