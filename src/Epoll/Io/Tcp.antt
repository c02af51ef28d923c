-- ===== src/Epoll/Io/Tcp.antt =====
-- detail/os/reactor/epoll/io/epoll_async_tcp.h.
pub mod Assigning
pub mod Destroying
use baba_io.Base.{ℕ, ℤ, Option, none, some, ◌==◌}
use baba_io.Os.Codes.{ok_code, IoHandle}
use baba_io.Os.Kernel.{Kernel}
use baba_io.Net.IpEndpoint
use baba_io.Net.IpEndpoint.{IpEndpoint}
use baba_io.Epoll.State.{Service, Descriptor}
use baba_io.Epoll.Memory.{
  M, pure, null_pointer, assertion_failed, ◌>>=◌, ◌>>◌, require, lift, modify_descriptor,
  load_descriptor,
}
use baba_io.Epoll.Interrupter.{new_descriptor}
use baba_io.Epoll.Arm.{init_read, init_write}
use baba_io.Epoll.Events.Recv
use baba_io.Epoll.Events.Recv.{EpollRecv}
use baba_io.Epoll.Events.Send
use baba_io.Epoll.Events.Send.{EpollSend}
use baba_io.Epoll.Io.Scope.{CompletionStrand, leave_scope}
use baba_io.Epoll.Io.Connector.{AsyncConnector}

pub record AsyncTcp : Type 0 where
  pub strand_for_user : Option CompletionStrand
  pub strand : Option ℕ
  pub descriptor : Option ℕ
  pub recver : EpollRecv
  pub sender : EpollSend
  pub ep : IpEndpoint

-- The move constructor, and the move assignment, which does not look at the value that it replaces.
unfoldable pub moved : AsyncTcp → AsyncTcp × AsyncTcp
unfolding IpEndpoint.moved
moved tmp =
    let (ep, rest) = IpEndpoint.moved tmp.ep in
    (
      record tmp { ep = ep },
      record {
        strand_for_user = none;
        strand = none;
        descriptor = none;
        recver = record { evt = none };
        sender = record { evt = none };
        ep = rest;
      },
    )

unfoldable pub move_assign : (self tmp : AsyncTcp) → AsyncTcp × AsyncTcp
unfolding moved
move_assign self tmp = moved tmp

-- The accessor that users call.
unfoldable pub strand : {W : Type 0} → AsyncTcp → M W CompletionStrand
strand self = require assertion_failed self.strand_for_user

unfoldable pub construct : {W : Type 0} → CompletionStrand → IoHandle → IpEndpoint → M W AsyncTcp
unfolding new_descriptor Recv.construct Send.construct
construct user_strand fd ep = do
  io_desc ← new_descriptor
  recver ← Recv.construct io_desc user_strand.impl
  sender ← Send.construct io_desc user_strand.impl
  modify_descriptor io_desc (λ d. record d { fd = fd })
  pure (record {
    strand_for_user = some user_strand;
    strand = some (user_strand.impl);
    descriptor = some io_desc;
    recver = recver;
    sender = sender;
    ep = ep;
  })

-- `async_tcp(async_connector &&)`: the object, and what is left of the connector. The constructor that
-- it delegates to copies the endpoint.
unfoldable pub from_connector : {W : Type 0} → AsyncConnector → M W (AsyncTcp × AsyncConnector)
unfolding construct
from_connector connector = do
  user_strand ← require assertion_failed connector.strand_for_user
  io_desc ← require null_pointer connector.descriptor
  d ← load_descriptor io_desc
  self ← construct user_strand d.fd connector.connector_ep
  pure (self, record connector { descriptor = none; strand = none })

-- `operator=(async_connector &&)`: the object, and what is left of the connector. The pointer to the
-- strand that users see is not assigned.
unfoldable pub assign_connector :
    {W : Type 0} → AsyncTcp → AsyncConnector → M W (AsyncTcp × AsyncConnector)
unfolding Recv.construct Send.construct IpEndpoint.moved
assign_connector self connector = do
  impl ← require null_pointer connector.strand
  io_desc ← require null_pointer connector.descriptor
  recver ← Recv.construct io_desc impl
  sender ← Send.construct io_desc impl
  let (ep, rest) = IpEndpoint.moved connector.connector_ep
  pure (
    record self {
      strand = some impl;
      descriptor = some io_desc;
      recver = recver;
      sender = sender;
      ep = ep;
    },
    record connector { connector_ep = rest; descriptor = none; strand = none },
  )

module _ {W : Type 0} (os : Kernel W) where
  unfoldable pub destroy : AsyncTcp → M W (Unit {0})
  unfolding leave_scope Recv.dispose Send.dispose
  destroy self =
      leave_scope os self.strand self.descriptor
        (Recv.dispose os self.recver >> Send.dispose os self.sender)

  unfoldable pub recv : AsyncTcp → (buffer : ℕ) → (size : ℤ) → (cb : Option ℕ) → M W (Unit {0})
  unfolding Recv.recv init_read
  recv self buffer size cb = do
    impl ← require assertion_failed self.strand
    Recv.recv (init_read os) self.recver buffer size cb

  unfoldable pub send : AsyncTcp → (buffer : ℕ) → (size : ℤ) → (cb : Option ℕ) → M W (Unit {0})
  unfolding Send.send init_write
  send self buffer size cb = do
    impl ← require assertion_failed self.strand
    Send.send (init_write os) self.sender buffer size cb
