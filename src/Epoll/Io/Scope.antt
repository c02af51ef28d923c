-- ===== src/Epoll/Io/Scope.antt =====
-- What the destructors of all objects of detail/os/reactor/epoll/io share, but for the events that
-- they dispose of, and the pointer to a strand that their users see.
use baba_io.Base.{ℕ, false, Option, none, some}
use baba_io.Os.Kernel.{Kernel}
use baba_io.Os.EpollImpl
use baba_io.Os.FileImpl
use baba_io.Epoll.State.{Descriptor}
use baba_io.Epoll.Memory.{
  M, pure, null_pointer, ◌>>=◌, ◌>>◌, require, update, load_descriptor, store_descriptor, when,
}

-- `completion_strand` of epoll_completion_strand.h; it does not change after its construction.
pub record CompletionStrand : Type 0 where
  pub impl : ℕ

module _ {W : Type 0} (os : Kernel W) where
  -- Takes the handle out of epoll, and closes it.
  unfoldable pub release : Descriptor → M W (Unit {0})
  unfolding EpollImpl.remove FileImpl.close
  release d = do
    update (λ s. record s { world = EpollImpl.remove os s.reactor.fd d.fd s.world })
    update (λ s. record s { world = FileImpl.close os d.fd s.world })

  -- The destructor's body: `dispose` stands for the calls of `dispose` at its end.
  unfoldable pub leave_scope :
      (strand : Option ℕ) → (descriptor : Option ℕ) → (dispose : M W (Unit {0})) → M W (Unit {0})
  unfolding release
  leave_scope none descriptor dispose = pure tt
  leave_scope (some strand) descriptor dispose = do
    io_desc ← require null_pointer descriptor
    d ← load_descriptor io_desc
    when d.in_scope
        (do store_descriptor io_desc (record d { in_scope = false }); release d; dispose)
