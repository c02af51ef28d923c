-- ===== src/Interface/Services.antt =====
-- src/io_service.cpp and src/io_strand.cpp, with src/pimpl/io_service_pimpl.h and
-- src/pimpl/io_strand_pimpl.h.
use baba_io.Base.{ℕ}
use baba_io.Os.Kernel.{Kernel}
use baba_io.Epoll.Memory.{M, pure, ◌>>=◌}
use baba_io.Epoll.Strand
use baba_io.Epoll.Service
use baba_io.Interface.Owned.{IoStrand}

-- The constructor of a strand at an address.
unfoldable pub create_strand : {W : Type 0} → (place : ℕ) → M W IoStrand
unfolding Strand.create
create_strand place = do
  impl ← Strand.create
  pure (record { place = place; impl = record { impl = impl } })

unfoldable pub post : {W : Type 0} → IoStrand → (task : ℕ) → M W (Unit {0})
unfolding Strand.post
post self task = Strand.post self.impl.impl task

module _ {W : Type 0} (os : Kernel W) where
  unfoldable pub new_service : M W (Unit {0})
  unfolding Service.construct
  new_service = Service.construct os 0

  unfoldable pub construct : (reactor_threads : ℕ) → M W (Unit {0})
  unfolding Service.construct
  construct reactor_threads = Service.construct os reactor_threads

  unfoldable pub stop : M W (Unit {0})
  unfolding Service.stop
  stop = Service.stop os

  -- The destructor, which is that of the implementation.
  unfoldable pub destroy : M W (Unit {0})
  unfolding Service.destroy
  destroy = Service.destroy os
