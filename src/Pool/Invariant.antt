-- ===== src/Pool/Invariant.antt =====
-- The sockets and the lock's counters belong to the threads: each open socket to one thread, each
-- reader, waiting writer and writer to a thread whose place in its loop allows it.
use bulletin_board.Base.{ℕ, ◌≤◌, ◌≡◌, Bool, true, false, some, List, if◌then◌else◌}
use bulletin_board.Base.Counting.{total}
use bulletin_board.Lock.Invariant.{flag}
use bulletin_board.Pool.{
  Server, board, sync, Phase, accepting, receiving, handling, abandoning, closing, returned,
  cancelled, Hold, reading, waiting, writing, kept, deadlocked, Worker,
}
use bulletin_board.Pool.Acts.{Shared, same, may_go_on, cancellable}

abbrev pub socket_of : ℕ → Phase → ℕ
socket_of e (receiving x b) = same e x
socket_of e (handling x) = same e x
socket_of e (abandoning x b) = same e x
socket_of e (closing x b) = same e x
socket_of e _ = 0

abbrev pub reads : Hold → ℕ
reads reading = 1
reads _ = 0

abbrev pub waits : Hold → ℕ
waits waiting = 1
waits deadlocked = 1
waits _ = 0

abbrev pub writes : Hold → ℕ
writes writing = 1
writes kept = 1
writes deadlocked = 1
writes _ = 0

-- Only the board reads, and only the slave keeps the lock of an earlier connection.
abbrev pub fits_inside : Server → Hold → Bool
fits_inside board kept = false
fits_inside board deadlocked = false
fits_inside board _ = true
fits_inside sync reading = false
fits_inside sync _ = true

-- Only in the body of the loop does a thread read or wait, and a thread of the board hold the lock.
abbrev pub fits : Server → Phase → Hold → Bool
fits v (handling e) h = fits_inside v h
fits v _ h = may_go_on v h

abbrev pub misfit : Server → Phase → Hold → ℕ
misfit v p h = if fits v p h then 0 else 1

abbrev pub socket_at : ℕ → Worker → ℕ
socket_at e p = socket_of e p.phase

abbrev pub reads_at : Worker → ℕ
reads_at p = reads p.hold

abbrev pub waits_at : Worker → ℕ
waits_at p = waits p.hold

abbrev pub writes_at : Worker → ℕ
writes_at p = writes p.hold

abbrev pub misfit_at : Worker → ℕ
misfit_at p = misfit p.server p.phase p.hold

pub record SocketInv (s : Shared) (ts : List Worker) : Type 0 where
  pub owned : (e : ℕ) → total (same e) s.sockets ≡ total (socket_at e) ts
  pub once : (e : ℕ) → total (same e) s.sockets ≤ 1

pub record LockInv (s : Shared) (ts : List Worker) : Type 0 where
  pub readers : s.access.num_readers_active ≡ total reads_at ts
  pub waiters : s.access.num_writers_waiting ≡ total waits_at ts
  pub writer : flag s.access.writer_active ≡ total writes_at ts
  pub fitting : total misfit_at ts ≡ 0

-- The socket of a phase in which the thread may be cancelled.
pub socket_of-cancellable :
    (e x : ℕ) (p : Phase) → cancellable p ≡ some x → socket_of e p ≡ same e x
unfolding cancellable same
socket_of-cancellable e x (receiving y true) h = cc
socket_of-cancellable e x (abandoning y true) h = cc
socket_of-cancellable e x (closing y true) h = cc
socket_of-cancellable e x (receiving y false) h = cc
socket_of-cancellable e x (abandoning y false) h = cc
socket_of-cancellable e x (closing y false) h = cc
socket_of-cancellable e x accepting h = cc
socket_of-cancellable e x (handling y) h = cc
socket_of-cancellable e x returned h = cc
socket_of-cancellable e x cancelled h = cc
