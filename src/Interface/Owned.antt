-- ===== src/Interface/Owned.antt =====
-- What the classes of src/tcp_socket.cpp, tcp_connector.cpp and timer.cpp have in common: a pointer to
-- the strand that users see, and the implementation, which the object owns.
use baba_io.Base.{ℕ, Option, none, some}
use baba_io.Epoll.Memory.{M, pure, assertion_failed, ◌>>◌, require}
use baba_io.Epoll.Io.Scope.{CompletionStrand}

-- An `io_strand` by its address, with what it holds; it can neither be copied nor moved.
pub record IoStrand : Type 0 where
  pub place : ℕ
  pub impl : CompletionStrand

pub record Owned (A : Type 0) : Type 0 where
  pub strand : Option ℕ
  pub pimpl : Option A

-- Both moves copy the pointer to the strand and take the implementation.
abbrev pub taken : {A : Type 0} → Owned A → Owned A × Owned A
taken tmp = (tmp, record tmp { pimpl = none })

abbrev pub strand_of : {W A : Type 0} → Owned A → M W ℕ
strand_of self = require assertion_failed self.strand

module _ {W A : Type 0} (destroy : A → M W (Unit {0})) where
  -- The destructor of `std::unique_ptr`.
  abbrev pub delete : Option A → M W (Unit {0})
  delete none = pure tt
  delete (some a) = destroy a

  -- The move assignment deletes the implementation that the object had.
  abbrev pub replaced : (self tmp : Owned A) → M W (Owned A × Owned A)
  replaced self tmp = delete self.pimpl >> pure (taken tmp)
