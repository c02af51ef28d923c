-- ===== src/Epoll/Io/Connector.antt =====
-- detail/os/reactor/epoll/io/epoll_async_connector.h.
use baba_io.Base.{ℕ, Option, none, some, ◌==◌}
use baba_io.Os.Codes.{ok_code}
use baba_io.Os.Kernel.{Kernel}
use baba_io.Net.IpEndpoint
use baba_io.Net.IpEndpoint.{IpEndpoint, default_endpoint}
use baba_io.Net.SocketCalls
use baba_io.Epoll.Memory.{
  M, pure, assertion_failed, ◌>>=◌, ◌>>◌, require, lift, modify_descriptor, when,
}
use baba_io.Epoll.Interrupter.{new_descriptor}
use baba_io.Epoll.Arm.{init_write}
use baba_io.Epoll.Events.Connect
use baba_io.Epoll.Events.Connect.{EpollConnect}
use baba_io.Epoll.Io.Scope.{CompletionStrand, leave_scope}

pub record AsyncConnector : Type 0 where
  pub strand_for_user : Option CompletionStrand
  pub strand : Option ℕ
  pub descriptor : Option ℕ
  pub connector : EpollConnect
  pub connector_ep : IpEndpoint

-- The move constructor, and the move assignment, which does not look at the value that it replaces.
unfoldable pub moved : AsyncConnector → AsyncConnector × AsyncConnector
unfolding IpEndpoint.moved
moved tmp =
    let (ep, rest) = IpEndpoint.moved tmp.connector_ep in
    (
      record tmp { connector_ep = ep },
      record {
        strand_for_user = none;
        strand = none;
        descriptor = none;
        connector = record { evt = none };
        connector_ep = rest;
      },
    )

unfoldable pub move_assign : (self tmp : AsyncConnector) → AsyncConnector × AsyncConnector
unfolding moved
move_assign self tmp = moved tmp

module _ {W : Type 0} (os : Kernel W) where
  unfoldable pub construct : CompletionStrand → (af : ℕ) → M W AsyncConnector
  unfolding new_descriptor Connect.construct SocketCalls.create_tcp default_endpoint
  construct strand af = do
    io_desc ← new_descriptor
    connector ← Connect.construct io_desc strand.impl
    (e, fd) ← lift (SocketCalls.create_tcp os af)
    when (e == ok_code) (modify_descriptor io_desc (λ d. record d { fd = fd }))
    pure (record {
      strand_for_user = some strand;
      strand = some (strand.impl);
      descriptor = some io_desc;
      connector = connector;
      connector_ep = default_endpoint;
    })

  unfoldable pub destroy : AsyncConnector → M W (Unit {0})
  unfolding leave_scope Connect.dispose
  destroy self = leave_scope os self.strand self.descriptor (Connect.dispose os self.connector)

  -- The object afterwards: it keeps the endpoint.
  unfoldable pub connect : AsyncConnector → IpEndpoint → (cb : Option ℕ) → M W AsyncConnector
  unfolding Connect.connect init_write
  connect self ep cb = do
    strand ← require assertion_failed self.strand
    Connect.connect (init_write os) (λ fd. SocketCalls.connect os fd ep) self.connector cb
    pure (record self { connector_ep = ep })
