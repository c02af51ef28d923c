-- ===== src/Interface/Connectors.antt =====
-- src/tcp_connector.cpp and src/pimpl/tcp_connector_pimpl.h.
use baba_io.Base.{ℕ, Option, none, some}
use baba_io.Os.Codes.{IoHandle}
use baba_io.Os.Kernel.{Kernel}
use baba_io.Net.IpEndpoint.{default_endpoint}
use baba_io.Epoll.Memory.{M, pure, null_pointer, ◌>>=◌, require, load_descriptor}
use baba_io.Epoll.Io.Connector
use baba_io.Epoll.Io.Connector.{AsyncConnector}
use baba_io.Interface.Addresses.{Endpoint}
use baba_io.Interface.Owned.{IoStrand, Owned, taken, strand_of, delete, replaced}

abbrev pub TcpConnector : Type 0
TcpConnector = Owned AsyncConnector

unfoldable pub default_connector : TcpConnector
unfolding default_endpoint
default_connector = record {
  strand = none;
  pimpl = some (record {
    strand_for_user = none;
    strand = none;
    descriptor = none;
    connector = record { evt = none };
    connector_ep = default_endpoint;
  });
}

unfoldable pub moved : TcpConnector → TcpConnector × TcpConnector
moved tmp = taken tmp

unfoldable pub strand : {W : Type 0} → TcpConnector → M W ℕ
strand self = strand_of self

-- `fd`, of the implementation too.
unfoldable pub fd : {W : Type 0} → TcpConnector → M W IoHandle
fd self = do
  impl ← require null_pointer self.pimpl
  io_desc ← require null_pointer impl.descriptor
  d ← load_descriptor io_desc
  pure d.fd

unfoldable pub endpoint : {W : Type 0} → TcpConnector → M W Endpoint
endpoint self = do impl ← require null_pointer self.pimpl; pure (some impl.connector_ep)

module _ {W : Type 0} (os : Kernel W) where
  unfoldable pub construct : IoStrand → (af : ℕ) → M W TcpConnector
  unfolding Connector.construct
  construct strand af = do
    impl ← Connector.construct os strand.impl af
    pure (record { strand = some strand.place; pimpl = some impl })

  unfoldable pub destroy : TcpConnector → M W (Unit {0})
  unfolding Connector.destroy
  destroy self = delete (Connector.destroy os) self.pimpl

  unfoldable pub move_assign : (self tmp : TcpConnector) → M W (TcpConnector × TcpConnector)
  unfolding Connector.destroy
  move_assign self tmp = replaced (Connector.destroy os) self tmp

  unfoldable pub connect : TcpConnector → Endpoint → (cb : Option ℕ) → M W TcpConnector
  unfolding Connector.connect
  connect self ep cb = do
    impl ← require null_pointer self.pimpl
    target ← require null_pointer ep
    after ← Connector.connect os impl target cb
    pure (record self { pimpl = some after })
