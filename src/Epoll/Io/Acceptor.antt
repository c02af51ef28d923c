-- ===== src/Epoll/Io/Acceptor.antt =====
-- detail/os/reactor/epoll/io/epoll_async_acceptor.h. The members that an accept in progress refers to
-- stand in a table: the references stay with the object that began it when the object is moved.
pub mod Moving
use baba_io.Base.{ℕ, ℤ, ◌+◌, Option, none, some, insert, ◌==◌, if◌then◌else◌}
use baba_io.Os.Codes.{ErrorCode, ok_code, IoHandle, invalid_handle}
use baba_io.Os.Kernel.{Kernel}
use baba_io.Net.IpEndpoint
use baba_io.Net.IpEndpoint.{IpEndpoint, default_endpoint}
use baba_io.Net.SocketCalls
use baba_io.Epoll.State.{Accepting}
use baba_io.Epoll.Memory.{
  M, ok, pure, assertion_failed, null_pointer, ◌>>=◌, ◌>>◌, require, lift, modify_descriptor, when,
  load_descriptor, load_accepting, store_accepting,
}
use baba_io.Epoll.Interrupter.{new_descriptor}
use baba_io.Epoll.Arm.{init_read}
use baba_io.Epoll.Events.Accept
use baba_io.Epoll.Events.Accept.{EpollAccept}
use baba_io.Epoll.Io.Scope.{CompletionStrand, leave_scope}
use baba_io.Epoll.Io.Tcp
use baba_io.Epoll.Io.Tcp.{AsyncTcp}

pub record AsyncAcceptor : Type 0 where
  pub strand_for_user : Option CompletionStrand
  pub strand : Option ℕ
  pub descriptor : Option ℕ
  pub acceptor : EpollAccept
  pub accepting : ℕ

-- A new object's members at a new address.
unfoldable pub new_accepting : {W : Type 0} → Accepting → M W ℕ
new_accepting a s = ok (
  s.next_accepting,
  record s {
    accepting = insert s.accepting s.next_accepting a;
    next_accepting = s.next_accepting + 1;
  },
)

-- The move constructor: the object, and what is left of the other.
unfoldable pub moved : {W : Type 0} → AsyncAcceptor → M W (AsyncAcceptor × AsyncAcceptor)
unfolding new_accepting IpEndpoint.moved
moved tmp = do
  a ← load_accepting tmp.accepting
  let (acceptor_ep, acceptor_rest) = IpEndpoint.moved a.acceptor_ep
  let (peer_ep, peer_rest) = IpEndpoint.moved a.peer_ep
  accepting ← new_accepting (record a { acceptor_ep = acceptor_ep; peer_ep = peer_ep })
  store_accepting tmp.accepting
      (record { acceptor_ep = acceptor_rest; peer_fd = invalid_handle; peer_ep = peer_rest })
  pure (
    record tmp { accepting = accepting },
    record tmp {
      strand_for_user = none;
      strand = none;
      descriptor = none;
      acceptor = record { evt = none };
    },
  )

-- The move assignment, which does not look at the value that it replaces; the members of the object
-- keep their address.
unfoldable pub move_assign :
    {W : Type 0} → (self tmp : AsyncAcceptor) → M W (AsyncAcceptor × AsyncAcceptor)
unfolding IpEndpoint.moved
move_assign self tmp = do
  a ← load_accepting tmp.accepting
  let (acceptor_ep, acceptor_rest) = IpEndpoint.moved a.acceptor_ep
  let (peer_ep, peer_rest) = IpEndpoint.moved a.peer_ep
  store_accepting self.accepting (record a { acceptor_ep = acceptor_ep; peer_ep = peer_ep })
  store_accepting tmp.accepting
      (record { acceptor_ep = acceptor_rest; peer_fd = invalid_handle; peer_ep = peer_rest })
  pure (
    record tmp { accepting = self.accepting },
    record tmp {
      strand_for_user = none;
      strand = none;
      descriptor = none;
      acceptor = record { evt = none };
    },
  )

module _ {W : Type 0} (os : Kernel W) where
  -- The function that finishes an accept.
  unfoldable pub fin_accept : IoHandle → (accepting : ℕ) → M W ErrorCode
  unfolding SocketCalls.accept
  fin_accept acceptor_fd accepting s =
      (do
        a ← load_accepting accepting
        r ← lift (SocketCalls.accept os s.unwritten_sock s.unwritten_addr acceptor_fd a.acceptor_ep)
        store_accepting accepting (record a { peer_fd = r.fd; peer_ep = r.endpoint })
        pure r.ec)
        s

  unfoldable pub construct : CompletionStrand → (af : ℕ) → M W AsyncAcceptor
  unfolding new_descriptor new_accepting Accept.construct SocketCalls.create_tcp default_endpoint
  construct strand af = do
    io_desc ← new_descriptor
    acceptor ← Accept.construct io_desc strand.impl
    accepting ← new_accepting (record {
      acceptor_ep = default_endpoint;
      peer_fd = invalid_handle;
      peer_ep = default_endpoint;
    })
    (e, fd) ← lift (SocketCalls.create_tcp os af)
    when (e == ok_code) (modify_descriptor io_desc (λ d. record d { fd = fd }))
    pure (record {
      strand_for_user = some strand;
      strand = some (strand.impl);
      descriptor = some io_desc;
      acceptor = acceptor;
      accepting = accepting;
    })

  unfoldable pub destroy : AsyncAcceptor → M W (Unit {0})
  unfolding leave_scope Accept.dispose
  destroy self = leave_scope os self.strand self.descriptor (Accept.dispose os self.acceptor)

  unfoldable pub bind : AsyncAcceptor → IpEndpoint → M W ErrorCode
  unfolding SocketCalls.bind
  bind self ep = do
    a ← load_accepting self.accepting
    store_accepting self.accepting (record a { acceptor_ep = ep })
    io_desc ← require null_pointer self.descriptor
    d ← load_descriptor io_desc
    lift (SocketCalls.bind os d.fd ep)

  unfoldable pub listen : AsyncAcceptor → (backlog : ℤ) → M W ErrorCode
  unfolding SocketCalls.listen
  listen self backlog = do
    io_desc ← require null_pointer self.descriptor
    d ← load_descriptor io_desc
    lift (SocketCalls.listen os d.fd backlog)

  -- `cb` names the closure that `hand_over_peer` runs.
  unfoldable pub accept : AsyncAcceptor → (cb : Option ℕ) → M W (Unit {0})
  unfolding Accept.accept init_read
  accept self cb = do
    strand ← require assertion_failed self.strand
    Accept.accept (init_read os) self.acceptor self.accepting cb

  -- The overload with a strand for the peer, which does not look at the acceptor's own.
  unfoldable pub accept_on : AsyncAcceptor → (cb : Option ℕ) → M W (Unit {0})
  unfolding Accept.accept init_read
  accept_on self cb = Accept.accept (init_read os) self.acceptor self.accepting cb

-- The closure that `accept` gives to its event, up to its call of the user: after a success the
-- connection of the peer is made and assigned to the object that the user has given.
unfoldable pub hand_over_peer :
    {W : Type 0}
    → (accepting : ℕ) → (peer_strand : CompletionStrand) → (peer : AsyncTcp) → (e : ErrorCode)
    → M W AsyncTcp
unfolding Tcp.construct Tcp.move_assign
hand_over_peer accepting peer_strand peer e =
    if e == ok_code
    then (do
      a ← load_accepting accepting
      temporary ← Tcp.construct peer_strand a.peer_fd a.peer_ep
      pure (Tcp.move_assign peer temporary).0)
    else pure peer
