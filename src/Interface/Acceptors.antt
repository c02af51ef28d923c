-- ===== src/Interface/Acceptors.antt =====
-- src/tcp_acceptor.cpp and src/pimpl/tcp_acceptor_pimpl.h.
use baba_io.Base.{ℕ, ℤ, Option, none, some}
use baba_io.Os.Codes.{ErrorCode, IoHandle, invalid_handle}
use baba_io.Os.Kernel.{Kernel}
use baba_io.Net.IpEndpoint.{default_endpoint}
use baba_io.Epoll.Memory.{
  M, pure, null_pointer, ◌>>=◌, ◌>>◌, require, load_descriptor, load_accepting,
}
use baba_io.Epoll.Io.Acceptor
use baba_io.Epoll.Io.Acceptor.{AsyncAcceptor, new_accepting}
use baba_io.Interface.Addresses.{Endpoint}
use baba_io.Interface.Owned.{IoStrand, Owned, taken, strand_of, delete, replaced}
use baba_io.Interface.Sockets.{TcpSocket}

abbrev pub TcpAcceptor : Type 0
TcpAcceptor = Owned AsyncAcceptor

unfoldable pub default_acceptor : {W : Type 0} → M W TcpAcceptor
unfolding new_accepting default_endpoint
default_acceptor = do
  accepting ← new_accepting (record {
    acceptor_ep = default_endpoint;
    peer_fd = invalid_handle;
    peer_ep = default_endpoint;
  })
  pure (record {
    strand = none;
    pimpl = some (record {
      strand_for_user = none;
      strand = none;
      descriptor = none;
      acceptor = record { evt = none };
      accepting = accepting;
    });
  })

unfoldable pub moved : TcpAcceptor → TcpAcceptor × TcpAcceptor
moved tmp = taken tmp

unfoldable pub strand : {W : Type 0} → TcpAcceptor → M W ℕ
strand self = strand_of self

-- `fd`, of the implementation too.
unfoldable pub fd : {W : Type 0} → TcpAcceptor → M W IoHandle
fd self = do
  impl ← require null_pointer self.pimpl
  io_desc ← require null_pointer impl.descriptor
  d ← load_descriptor io_desc
  pure d.fd

unfoldable pub endpoint : {W : Type 0} → TcpAcceptor → M W Endpoint
endpoint self = do
  impl ← require null_pointer self.pimpl
  a ← load_accepting impl.accepting
  pure (some a.acceptor_ep)

module _ {W : Type 0} (os : Kernel W) where
  unfoldable pub construct : IoStrand → (af : ℕ) → M W TcpAcceptor
  unfolding Acceptor.construct
  construct strand af = do
    impl ← Acceptor.construct os strand.impl af
    pure (record { strand = some strand.place; pimpl = some impl })

  unfoldable pub destroy : TcpAcceptor → M W (Unit {0})
  unfolding Acceptor.destroy
  destroy self = delete (Acceptor.destroy os) self.pimpl

  unfoldable pub move_assign : (self tmp : TcpAcceptor) → M W (TcpAcceptor × TcpAcceptor)
  unfolding Acceptor.destroy
  move_assign self tmp = replaced (Acceptor.destroy os) self tmp

  unfoldable pub bind : TcpAcceptor → Endpoint → M W ErrorCode
  unfolding Acceptor.bind
  bind self ep = do
    impl ← require null_pointer self.pimpl
    local ← require null_pointer ep
    Acceptor.bind os impl local

  unfoldable pub listen : TcpAcceptor → (backlog : ℤ) → M W ErrorCode
  unfolding Acceptor.listen
  listen self backlog = do impl ← require null_pointer self.pimpl; Acceptor.listen os impl backlog

  -- The peer afterwards; its strand is set before anything is accepted.
  unfoldable pub accept : TcpAcceptor → (peer : TcpSocket) → (cb : Option ℕ) → M W TcpSocket
  unfolding Acceptor.accept
  accept self peer cb = do
    impl ← require null_pointer self.pimpl
    target ← require null_pointer peer.pimpl
    Acceptor.accept os impl cb
    pure (record peer { strand = self.strand })

  unfoldable pub accept_on :
      TcpAcceptor → IoStrand → (peer : TcpSocket) → (cb : Option ℕ) → M W TcpSocket
  unfolding Acceptor.accept_on
  accept_on self strand peer cb = do
    impl ← require null_pointer self.pimpl
    target ← require null_pointer peer.pimpl
    Acceptor.accept_on os impl cb
    pure (record peer { strand = some strand.place })
