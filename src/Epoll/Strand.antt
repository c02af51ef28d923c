-- ===== src/Epoll/Strand.antt =====
-- detail/os/reactor/epoll/epoll_completion_strand.cpp; `process_completion_queue` stands in Epoll/Proactor.
use baba_io.Base.{ℕ, true, false, insert, ◌+◌}
use baba_io.Library.BlockingQueue
use baba_io.Epoll.State.{Strand, completes, posted}
use baba_io.Epoll.Memory.{
  M, ok, null_pointer, ◌>>=◌, require, load_event, load_strand, store_strand,
}

-- `evt->strand->enqueue(evt)`.
unfoldable pub enqueue : {W : Type 0} → ℕ → M W (Unit {0})
unfolding BlockingQueue.enqueue
enqueue evt = do
  e ← load_event evt
  strand ← require null_pointer e.strand
  t ← load_strand strand
  store_strand strand
      (record t { completion_queue = BlockingQueue.enqueue (completes evt) t.completion_queue })

unfoldable pub stop : Strand → Strand
unfolding BlockingQueue.stop
stop t = record { run = false; completion_queue = BlockingQueue.stop t.completion_queue }

unfoldable pub clear : Strand → Strand
unfolding BlockingQueue.clear
clear t = record t { completion_queue = BlockingQueue.clear t.completion_queue }

-- `post`, of a task that is not empty.
unfoldable pub post : {W : Type 0} → (strand task : ℕ) → M W (Unit {0})
unfolding BlockingQueue.enqueue
post strand task = do
  t ← load_strand strand
  store_strand strand
      (record t { completion_queue = BlockingQueue.enqueue (posted task) t.completion_queue })

-- The constructor, as `epoll_service::create_strand` calls it.
unfoldable pub create : {W : Type 0} → M W ℕ
create s =
    let strand = s.next_strand in
    ok (
      strand,
      record s {
        strands =
            insert s.strands strand (record { run = true; completion_queue = BlockingQueue.empty });
        next_strand = strand + 1;
      },
    )
