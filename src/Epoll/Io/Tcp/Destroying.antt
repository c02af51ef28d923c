-- ===== src/Epoll/Io/Tcp/Destroying.antt =====
-- The destructor of a connection.
use baba_io.Base.{ℕ, ◌+◌, ◌%◌, ◌^◌, ◌<◌, ◌≡◌, refl, true, false, some, arith, insert, [], ◌∷◌, ◌++◌}
use baba_io.Os.Kernel.{Kernel}
use baba_io.Os.EpollImpl
use baba_io.Os.FileImpl
use baba_io.Epoll.State.{Service, Event, Descriptor}
use baba_io.Epoll.Memory.{ok}
use baba_io.Epoll.Interrupter.{write_fails, written}
use baba_io.Epoll.Registrar.Ids.{IsRegistrar}
use baba_io.Epoll.Deletion.Disposing.{final_of, disposed, disposed-IsRegistrar, dispose_lem}
use baba_io.Epoll.Events.Recv
use baba_io.Epoll.Events.Send
use baba_io.Epoll.Io.Scope.{leave_scope, release}
use baba_io.Epoll.Io.Tcp.{AsyncTcp, destroy}

module _ {W : Type 0} (os : Kernel W) (s : Service W) (io_desc : ℕ) (d : Descriptor) where
  -- The descriptor is out of scope, and its handle out of epoll, and closed after that.
  abbrev pub shut : Service W
  shut = record s {
    descriptors = insert s.descriptors io_desc (record d { in_scope = false });
    world = FileImpl.close os d.fd (EpollImpl.remove os s.reactor.fd d.fd s.world);
  }

  module _ (re we : ℕ) (er ew : Event) where
    -- The final events of the two operations have new keys,
    abbrev pub first_key : ℕ
    first_key = s.registrar.id_generator

    abbrev pub second_key : ℕ
    second_key = (first_key + 1) % 2 ^ 64

    -- and are queued for deletion in the order of the members, each with a write to the self pipe.
    abbrev pub destroyed : Service W
    destroyed = record shut {
      registrar = record {
        register =
            insert (insert s.registrar.register first_key (final_of re first_key er)) second_key
              (final_of we second_key ew);
        id_generator = (second_key + 1) % 2 ^ 64;
      };
      deletions = record { queue = (s.deletions.queue ++ first_key ∷ []) ++ second_key ∷ [] };
      world = (os.write s.interrupter.write_end 0 1 (written os shut)).1;
    }

-- A connection that is open: its descriptor is in scope, and it has its two events.
pub record IsOpen {W : Type 0} (s : Service W) (self : AsyncTcp) (strand io_desc re we : ℕ)
    (d : Descriptor) (er ew : Event) : Type 0 where
  pub runs_on : self.strand ≡ some strand
  pub points : self.descriptor ≡ some io_desc
  pub held : s.descriptors io_desc ≡ some d
  pub in_scope : d.in_scope ≡ true
  pub receives : self.recver.evt ≡ some re
  pub sends : self.sender.evt ≡ some we
  pub receiver : s.registrar.register re ≡ some er
  pub sender : s.registrar.register we ≡ some ew
  pub keys : IsRegistrar s.registrar
  pub room : s.registrar.id_generator + 2 < 2 ^ 64

module _ {W : Type 0} (os : Kernel W) (s : Service W) (self : AsyncTcp) (strand io_desc re we : ℕ)
    (d : Descriptor) (er ew : Event) (v : IsOpen s self strand io_desc re we d er ew) where
  first_room : s.registrar.id_generator + 1 < 2 ^ 64
  first_room = omega (arith, v.room)

  -- The state between the two calls of `dispose`.
  abbrev between : Service W
  between = record (disposed os (shut os s io_desc d) re er v.keys first_room v.receiver) {
    world = written os (shut os s io_desc d);
  }

  between_sender : between.registrar.register we ≡ some ew
  between_sender = let below = v.keys.below we ew v.sender in let kept = v.sender in ground arith

  -- The destructor of an open connection, where neither write to the self pipe fails.
  pub destroy_lem :
      write_fails os (shut os s io_desc d) ≡ false
      → write_fails os (record (shut os s io_desc d) { world = written os (shut os s io_desc d) })
        ≡ false
      → destroy os self s ≡ ok (tt, destroyed os s io_desc d re we er ew)
  unfolding destroy leave_scope release Recv.dispose Send.dispose
  destroy_lem good good' =
      rw
        (
          v.runs_on,
          v.points,
          v.held,
          v.in_scope,
          v.receives,
          dispose_lem os (shut os s io_desc d) re er v.keys first_room v.receiver good,
          v.sends,
          dispose_lem os between we ew
              (disposed-IsRegistrar os (shut os s io_desc d) re er v.keys first_room v.receiver)
              (omega (arith, v.room)) between_sender good',
        )
        refl
