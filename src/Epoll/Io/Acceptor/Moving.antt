-- ===== src/Epoll/Io/Acceptor/Moving.antt =====
-- What a move of an acceptor does to an accept in progress, which refers to the members of the object
-- that began it.
use baba_io.Base.{◌<◌, ◌≡◌, ◌≢◌, some, arith, if◌then◌else◌, ◌==ℤ◌}
use baba_io.Os.Codes.{IoHandle, invalid_handle}
use baba_io.Os.Kernel.{Kernel, Ret}
use baba_io.Net.Storage.{SockStorage}
use baba_io.Net.IpEndpoint
use baba_io.Net.IpEndpoint.{IpEndpoint, default_endpoint, from_sockaddr_in6}
use baba_io.Epoll.State.{Service, Accepting}
use baba_io.Epoll.Memory.{Returns}
use baba_io.Epoll.Io.Acceptor.{AsyncAcceptor, moved, fin_accept}

module _ {W : Type 0} (os : Kernel W) (s : Service W) (a : Accepting) where
  -- What the call makes of the members that a moved object leaves.
  abbrev pub late : Ret × SockStorage × W → Accepting
  late (r, peer_sock, w) =
      if r.value ==ℤ invalid_handle
      then record {
        acceptor_ep = (IpEndpoint.moved a.acceptor_ep).1;
        peer_fd = invalid_handle;
        peer_ep = default_endpoint;
      }
      else record {
        acceptor_ep = (IpEndpoint.moved a.acceptor_ep).1;
        peer_fd = r.value;
        peer_ep = from_sockaddr_in6 s.unwritten_sock peer_sock;
      }

  module _ (tmp : AsyncAcceptor) (ha : s.accepting tmp.accepting ≡ some a)
      (used : tmp.accepting < s.next_accepting) where
    -- After a move the new object has the endpoint and what has been accepted so far at an address of
    -- its own, while an accept that was in progress goes on at the old one: it calls the system with an
    -- address length of 0, reads the peer as an IPv6 endpoint, whatever the family of the acceptor is,
    -- and leaves the members of the new object as they are.
    pub moved-fin_accept :
        (fd : IoHandle)
        → Returns
            (λ (self, rest) s'.
              (self.accepting ≢ tmp.accepting)
              × (s'.accepting self.accepting
                  ≡ some (record a {
                    acceptor_ep = (IpEndpoint.moved a.acceptor_ep).0;
                    peer_ep = (IpEndpoint.moved a.peer_ep).0;
                  }))
              × Returns
                  (λ e s''.
                    (s''.accepting self.accepting ≡ s'.accepting self.accepting)
                    × (s''.accepting tmp.accepting ≡ some (late (os.accept fd 0 s.world))))
                  (fin_accept os fd tmp.accepting s'))
            (moved tmp s)
    unfolding moved fin_accept
    moved-fin_accept fd = ground arith
