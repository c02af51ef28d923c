-- ===== src/Interface/Sockets/Moving.antt =====
-- Assignments to the sockets that users see.
use baba_io.Base.{ℕ, ◌≡◌, refl, false, some, arith}
use baba_io.Epoll.State.{Service, Event, Descriptor}
use baba_io.Epoll.Memory.{ok, pure, ◌>>=◌, ◌>>◌, fault, null_pointer, Returns}
use baba_io.Os.Kernel.{Kernel}
use baba_io.Epoll.Io.Connector.{AsyncConnector}
use baba_io.Epoll.Io.Tcp.{AsyncTcp}
use baba_io.Epoll.Io.Tcp.Destroying.{IsOpen, shut, destroyed, destroy_lem}
use baba_io.Epoll.Interrupter.{write_fails, written}
use baba_io.Interface.Connectors
use baba_io.Interface.Connectors.{TcpConnector}
use baba_io.Interface.Sockets.{
  TcpSocket, move_assign, destroy, strand, fd, endpoint, assign_connector,
}

-- The move assignment of a socket over one whose connection is open (its descriptor is in scope, it has its
-- two events, and two more keys do not wrap the counter), where neither write to the self pipe fails,
-- and the destructor of what it leaves of the other: the socket is the other. The old connection is out of
-- scope, its handle is taken out of epoll and then closed, and the final events of its receive and
-- its send, which have new keys, are queued for deletion in this order, each before its write to the self
-- pipe. Nothing else changes.
pub move_assign-destroy :
    {W : Type 0} (os : Kernel W) (self tmp : TcpSocket) (s : Service W) (old : AsyncTcp)
    (strand io_desc re we : ℕ) (d : Descriptor) (er ew : Event)
    → self.pimpl ≡ some old
    → IsOpen s old strand io_desc re we d er ew
    → write_fails os (shut os s io_desc d) ≡ false
    → write_fails os (record (shut os s io_desc d) { world = written os (shut os s io_desc d) })
      ≡ false
    → (move_assign os self tmp >>= λ (x, rest). destroy os rest >> pure x) s
      ≡ ok (tmp, destroyed os s io_desc d re we er ew)
unfolding move_assign destroy
move_assign-destroy os self tmp s old strand io_desc re we d er ew held is_open good good' =
    rw (held, destroy_lem os s old strand io_desc re we d er ew is_open good good') refl

module _ {W : Type 0} (self : TcpSocket) (connector : TcpConnector) (old : AsyncTcp)
    (source : AsyncConnector) (s : Service W) (io_desc impl place : ℕ) (d : Descriptor)
    (hold : self.pimpl ≡ some old) (hsource : connector.pimpl ≡ some source)
    (hplace : connector.strand ≡ some place) (hc : source.strand ≡ some impl)
    (hd : source.descriptor ≡ some io_desc) (hs : s.descriptors io_desc ≡ some d) where
  -- A socket that is assigned a connected connector has the descriptor, the endpoint and the strand of
  -- the connector, and its accessor for the strand returns it, though that of the implementation may
  -- not. What is left of the connector still answers for its strand, but has no descriptor.
  pub assign_connector-fd :
      Returns
        (λ (socket, rest) u.
          (strand socket u ≡ ok (place, u))
          × (fd socket u ≡ ok (d.fd, u))
          × (endpoint socket u ≡ ok (some source.connector_ep, u))
          × (Connectors.strand rest u ≡ ok (place, u))
          × (Connectors.fd rest u ≡ fault null_pointer))
        (assign_connector self connector s)
  unfolding assign_connector strand fd endpoint Connectors.strand Connectors.fd
  assign_connector-fd = ground arith
