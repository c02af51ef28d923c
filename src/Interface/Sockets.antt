-- ===== src/Interface/Sockets.antt =====
-- src/tcp_socket.cpp and src/pimpl/tcp_socket_pimpl.h.
pub mod Moving
use baba_io.Base.{ℕ, ℤ, Option, none, some}
use baba_io.Os.Codes.{IoHandle}
use baba_io.Os.Kernel.{Kernel}
use baba_io.Net.IpEndpoint.{default_endpoint}
use baba_io.Epoll.Memory.{M, pure, null_pointer, ◌>>=◌, require, load_descriptor}
use baba_io.Epoll.Io.Connector.{AsyncConnector}
use baba_io.Epoll.Io.Tcp
use baba_io.Epoll.Io.Tcp.{AsyncTcp}
use baba_io.Interface.Addresses.{Endpoint}
use baba_io.Interface.Owned.{IoStrand, Owned, taken, strand_of, delete, replaced}
use baba_io.Interface.Connectors.{TcpConnector}

abbrev pub TcpSocket : Type 0
TcpSocket = Owned AsyncTcp

unfoldable pub default_socket : TcpSocket
unfolding default_endpoint
default_socket = record {
  strand = none;
  pimpl = some (record {
    strand_for_user = none;
    strand = none;
    descriptor = none;
    recver = record { evt = none };
    sender = record { evt = none };
    ep = default_endpoint;
  });
}

unfoldable pub moved : TcpSocket → TcpSocket × TcpSocket
moved tmp = taken tmp

unfoldable pub construct : {W : Type 0} → IoStrand → IoHandle → Endpoint → M W TcpSocket
unfolding Tcp.construct
construct strand fd ep = do
  peer ← require null_pointer ep
  impl ← Tcp.construct strand.impl fd peer
  pure (record { strand = some strand.place; pimpl = some impl })

-- The socket, and what is left of the connector.
unfoldable pub from_connector : {W : Type 0} → TcpConnector → M W (TcpSocket × TcpConnector)
unfolding Tcp.from_connector
from_connector connector = do
  source ← require null_pointer connector.pimpl
  (impl, rest) ← Tcp.from_connector source
  pure (
    record { strand = connector.strand; pimpl = some impl },
    record connector { pimpl = some rest },
  )

unfoldable pub assign_connector :
    {W : Type 0} → TcpSocket → TcpConnector → M W (TcpSocket × TcpConnector)
unfolding Tcp.assign_connector
assign_connector self connector = do
  source ← require null_pointer connector.pimpl
  old ← require null_pointer self.pimpl
  (impl, rest) ← Tcp.assign_connector old source
  pure (
    record { strand = connector.strand; pimpl = some impl },
    record connector { pimpl = some rest },
  )

unfoldable pub strand : {W : Type 0} → TcpSocket → M W ℕ
strand self = strand_of self

-- `fd`, of the implementation too.
unfoldable pub fd : {W : Type 0} → TcpSocket → M W IoHandle
fd self = do
  impl ← require null_pointer self.pimpl
  io_desc ← require null_pointer impl.descriptor
  d ← load_descriptor io_desc
  pure d.fd

unfoldable pub endpoint : {W : Type 0} → TcpSocket → M W Endpoint
endpoint self = do impl ← require null_pointer self.pimpl; pure (some impl.ep)

module _ {W : Type 0} (os : Kernel W) where
  unfoldable pub destroy : TcpSocket → M W (Unit {0})
  unfolding Tcp.destroy
  destroy self = delete (Tcp.destroy os) self.pimpl

  unfoldable pub move_assign : (self tmp : TcpSocket) → M W (TcpSocket × TcpSocket)
  unfolding Tcp.destroy
  move_assign self tmp = replaced (Tcp.destroy os) self tmp

  unfoldable pub recv : TcpSocket → (buffer : ℕ) → (size : ℤ) → (cb : Option ℕ) → M W (Unit {0})
  unfolding Tcp.recv
  recv self buffer size cb = do
    impl ← require null_pointer self.pimpl
    Tcp.recv os impl buffer size cb

  unfoldable pub send : TcpSocket → (buffer : ℕ) → (size : ℤ) → (cb : Option ℕ) → M W (Unit {0})
  unfolding Tcp.send
  send self buffer size cb = do
    impl ← require null_pointer self.pimpl
    Tcp.send os impl buffer size cb
