-- ===== src/Epoll/Io/Tcp/Assigning.antt =====
-- What an assignment from a connector, or a move, does to a connection.
use baba_io.Base.{ℕ, ◌≡◌, none, some, arith}
use baba_io.Os.Kernel.{Kernel}
use baba_io.Epoll.State.{Service, Descriptor}
use baba_io.Epoll.Memory.{ok, fault, assertion_failed, Returns}
use baba_io.Epoll.Io.Connector.{AsyncConnector}
use baba_io.Epoll.Io.Tcp.{AsyncTcp, moved, strand, assign_connector, destroy}

-- Of an object and what a move leaves of it, only the object disposes of anything when both are
-- destroyed: the destructor of the rest does nothing.
pub moved-destroy :
    {W : Type 0} (os : Kernel W) (tmp : AsyncTcp) (s : Service W)
    → (destroy os (moved tmp).1 s ≡ ok (tt, s)) × (destroy os (moved tmp).0 s ≡ destroy os tmp s)
unfolding moved destroy
moved-destroy os tmp s = ground arith

module _ {W : Type 0} (self : AsyncTcp) (connector : AsyncConnector) (s : Service W) (io_desc : ℕ)
    (impl : ℕ) (d : Descriptor) (hc : connector.strand ≡ some impl)
    (hd : connector.descriptor ≡ some io_desc) (hs : s.descriptors io_desc ≡ some d)
    (fresh : self.strand_for_user ≡ none) where
  -- A default constructed connection that is assigned a connected connector has its descriptor and a
  -- strand to run on, and yet its accessor for the strand fails its assertion.
  pub assign_connector-strand :
      Returns
        (λ (tcp, rest) s'.
          (tcp.descriptor ≡ some io_desc)
          × (tcp.strand ≡ some impl)
          × (rest.strand ≡ none)
          × (strand tcp s' ≡ fault assertion_failed))
        (assign_connector self connector s)
  unfolding assign_connector strand
  assign_connector-strand = ground arith
