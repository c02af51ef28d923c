-- ===== src/Iocp/Service.antt =====
-- detail/os/reactor/iocp/iocp_service.cpp and iocp_reactor.cpp. The loops take fuel, one round for each
-- entry and one more. `dequeue` answers a std::optional, which the source uses as if it were the pointer
-- in it: the code of both loops does not build as it is. It is read as it is meant, with the pointer of the
-- entry; an empty answer, which does not occur, is a fault.
use baba_io.Base.{ℕ, zero, suc, ◌==◌, Bool, true, false, none, List, [], ◌∷◌, if◌then◌else◌}
use baba_io.Library.SafeQueue
use baba_io.Library.BlockingQueue
use baba_io.Os.Codes.{ErrorCode, ok_code, invalid_handle}
use baba_io.Epoll.Memory.{ok, fault, out_of_fuel, bad_function_call}
use baba_io.Iocp.State.{Service, Windows}
use baba_io.Iocp.Memory.{M, pure, ◌>>=◌, ◌>>◌, update, require, lift, load_event}
use baba_io.Iocp.Impl
use baba_io.Iocp.Events
use baba_io.Iocp.Events.{run_react, run_complete}

-- MAX_IOCP_ENTRIES
abbrev pub max_iocp_entries : ℕ
max_iocp_entries = 100

-- The members before the constructors run; the lifetimes are those of the users.
abbrev pub initial : {W : Type 0} → (lives : ℕ → Bool) → W → Service W
initial lives w = record {
  run = true;
  register = λ key. none;
  id_generator = 0;
  descriptors = λ d. none;
  contexts = λ ctx. none;
  next_object = 0;
  lives = lives;
  completion_queue = record { active = true; queue = [] };
  deletion_queue = record { queue = [] };
  reactor_fd = invalid_handle;
  calls = [];
  world = w;
}

-- The first entries of the list, as many as the count says.
unfoldable pub entries : {W : Type 0} → ℕ → List ℕ → M W (Unit {0})
unfolding run_react
entries zero evts = pure tt
entries (suc n) [] = pure tt
entries (suc n) (evt ∷ evts) =
    (load_event evt >>= λ e. require bad_function_call e.react >>= λ r. run_react r)
    >> entries n evts

module _ {W : Type 0} (win : Windows W) where
  -- The constructor of the reactor, which goes on where the port cannot be created.
  unfoldable pub construct : M W (Unit {0})
  unfolding Impl.create
  construct = do (e, fd) ← lift (Impl.create win); update (λ s. record s { reactor_fd = fd })

  unfoldable pub wait : M W ErrorCode
  unfolding Impl.wait entries
  wait s =
      (do
        (r, evts) ← lift (λ w.
            let (r, evts, w') = Impl.wait win s.reactor_fd max_iocp_entries w in ((r, evts), w'))
        if r.ec == ok_code then (do entries r.ready_io_count evts; pure ok_code) else pure r.ec)
        s

  unfoldable pub close : M W (Unit {0})
  unfolding Impl.close
  close = update (λ s. record s { world = Impl.close win s.reactor_fd s.world })

  unfoldable pub stop : M W (Unit {0})
  unfolding close BlockingQueue.stop
  stop = do
    update (λ s. record s { run = false })
    update (λ s. record s { completion_queue = BlockingQueue.stop s.completion_queue })
    close

unfoldable pub process_completion_queue : {W : Type 0} → ℕ → M W (Unit {0})
unfolding BlockingQueue.size BlockingQueue.dequeue run_complete
process_completion_queue zero s = fault out_of_fuel
process_completion_queue (suc fuel) s =
    let rest = process_completion_queue fuel in
    if BlockingQueue.size s.completion_queue == 0
    then ok (tt, s)
    else (let (x, queue) = BlockingQueue.dequeue s.completion_queue in
        (do
          evt ← require bad_function_call x
          e ← load_event evt
          c ← require bad_function_call e.complete
          run_complete c
          rest)
          (record s { completion_queue = queue }))

unfoldable pub process_deletion_queue : {W : Type 0} → ℕ → M W (Unit {0})
unfolding SafeQueue.size SafeQueue.dequeue Events.enqueue_for_completion
process_deletion_queue zero s = fault out_of_fuel
process_deletion_queue (suc fuel) s =
    let rest = process_deletion_queue fuel in
    if SafeQueue.size s.deletion_queue == 0
    then ok (tt, s)
    else (let (x, queue) = SafeQueue.dequeue s.deletion_queue in
        (do evt ← require bad_function_call x; Events.enqueue_for_completion evt; rest)
          (record s { deletion_queue = queue }))

module _ {W : Type 0} (win : Windows W) where
  -- One round of `reactor_process`; the code of `wait` is dropped.
  unfoldable pub reactor_round : ℕ → M W (Unit {0})
  unfolding process_deletion_queue wait
  reactor_round fuel = do process_deletion_queue fuel; e ← wait win; pure tt
