-- ===== src/Pool/Locks.antt =====
-- The readers-writer lock in the hands of the threads of both servers, and what is left of it when
-- they are cancelled.
use bulletin_board.Base.{
  ℕ, suc, ◌+◌, ◌≤◌, ◌<◌, ◌≡◌, ◌⊎◌, inl, inr, refl, sym, ◌∙◌, Bool, true, false, some, List, arith,
  Bool-cases, get_elem?, set,
}
use bulletin_board.Base.Counting.{total, total-set, le-total, total-zero, find}
use bulletin_board.Lock.{
  AccessData, unlocked, announce_writer, writer_must_wait, enter_writer, leave_writer,
  reader_must_wait, enter_reader, leave_reader,
}
use bulletin_board.Pool.{
  Server, board, sync, Phase, accepting, receiving, handling, abandoning, closing, Hold, free,
  reading, waiting, writing, kept, Worker, new_thread, is_over,
}
use bulletin_board.Pool.Acts.{
  Shared, may_go_on, behind_break, cancellable, Act, accept, accept_fails, receive, hang_up,
  write_waits, write_enters, write_enters_late, write_deadlocks, write_leaves, read_enters,
  read_leaves, next_request, refuse, leave_loop, closed_by_master, abandon, nothing_to_abandon,
  close, cancel_accept, cancel,
}
use bulletin_board.Pool.Threads.{
  World, kill_from, restart, empty_world, Event, Step, act, kill, joined, start_again, Reach,
  started, later, finished,
}
use bulletin_board.Pool.Weights.{total-start_servers, total-kill_from, kill_from-shared}
use bulletin_board.Pool.Joined.{finished-all}
use bulletin_board.Pool.Invariant.{
  LockInv, reads, waits, writes, misfit, fits, reads_at, waits_at, writes_at, misfit_at,
}

-- What one thread's step does to the counts of all.
record Counts (ts ts' : List Worker) (v : Server) (p p' : Phase) (h h' : Hold) : Type 0 where
  readers : total reads_at ts' + reads h ≡ total reads_at ts + reads h'
  waiters : total waits_at ts' + waits h ≡ total waits_at ts + waits h'
  writer : total writes_at ts' + writes h ≡ total writes_at ts + writes h'
  fitting : total misfit_at ts' + misfit v p h ≡ total misfit_at ts + misfit v p' h'
  reads_now : reads h ≤ total reads_at ts
  waits_now : waits h ≤ total waits_at ts
  writes_now : writes h ≤ total writes_at ts
  fits_now : misfit v p h ≤ total misfit_at ts

Act-LockInv :
    {v : Server} {r : Bool} (s : Shared) {s' : Shared} (p : Phase) {p' : Phase} (h : Hold)
    {h' : Hold} {heard : Bool} (ts ts' : List Worker)
    → Act v s r p h s' p' h' heard
    → Counts ts ts' v p p' h h'
    → LockInv s ts
    → LockInv s' ts'
unfolding reader_must_wait writer_must_wait announce_writer enter_writer leave_writer enter_reader
    leave_reader may_go_on behind_break cancellable
Act-LockInv s accepting h ts ts' (accept x new) c inv = ground arith
Act-LockInv s accepting h ts ts' accept_fails c inv = ground arith
Act-LockInv s (receiving e b) h ts ts' receive c inv = ground arith
Act-LockInv s (receiving e b) h ts ts' hang_up c inv = ground arith
Act-LockInv s (handling e) free ts ts' (write_waits w) c inv = ground arith
Act-LockInv s (handling e) free ts ts' (write_enters w) c inv = ground arith
Act-LockInv s (handling e) waiting ts ts' (write_enters_late w) c inv = ground arith
Act-LockInv s (handling e) kept ts ts' write_deadlocks c inv = ground arith
Act-LockInv s (handling e) writing ts ts' write_leaves c inv = ground arith
Act-LockInv s (handling e) free ts ts' (read_enters q w) c inv = ground arith
Act-LockInv s (handling e) reading ts ts' read_leaves c inv = ground arith
Act-LockInv s (handling e) h ts ts' (next_request g) c inv = ground arith
Act-LockInv s (handling e) free ts ts' (refuse q) c inv = ground arith
Act-LockInv s (handling e) h ts ts' (leave_loop g) c inv = ground arith
Act-LockInv s (handling e) h ts ts' (closed_by_master q g) c inv = ground arith
Act-LockInv s (abandoning e b) writing ts ts' abandon c inv = ground arith
Act-LockInv s (abandoning e b) h ts ts' (nothing_to_abandon n) c inv = ground arith
Act-LockInv s (closing e b) h ts ts' close c inv = ground arith
Act-LockInv s accepting h ts ts' (cancel_accept q) c inv = ground arith
Act-LockInv s p h ts ts' (cancel q at) c inv = ground arith

Counts-set :
    (ts : List Worker) (i : ℕ) (p : Worker) (ph : Phase) (h : Hold)
    → get_elem? ts i ≡ some p
    → Counts ts (set ts i (record p { phase = ph; hold = h })) p.server p.phase ph p.hold h
Counts-set ts i p ph h at =
    let p' : Worker = record p { phase = ph; hold = h } in
    record {
      readers = total-set reads_at ts i p p' at;
      waiters = total-set waits_at ts i p p' at;
      writer = total-set writes_at ts i p p' at;
      fitting = total-set misfit_at ts i p p' at;
      reads_now = le-total reads_at ts i p at;
      waits_now = le-total waits_at ts i p at;
      writes_now = le-total writes_at ts i p at;
      fits_now = le-total misfit_at ts i p at;
    }

kill_from-LockInv :
    (k : ℕ) (w : World)
    → LockInv w.shared w.threads
    → LockInv (kill_from k w).shared (kill_from k w).threads
kill_from-LockInv k w inv = rw (kill_from-shared k w) (record {
  readers = inv.readers ∙ sym (total-kill_from reads_at (λ p. refl) k w);
  waiters = inv.waiters ∙ sym (total-kill_from waits_at (λ p. refl) k w);
  writer = inv.writer ∙ sym (total-kill_from writes_at (λ p. refl) k w);
  fitting = total-kill_from misfit_at (λ p. refl) k w ∙ inv.fitting;
})

new_thread_fits : (v : Server) → misfit_at (new_thread v) ≡ 0
unfolding may_go_on
new_thread_fits board = refl
new_thread_fits sync = refl

restart-LockInv :
    (pthread_create : Server → ℕ → Bool) (tmax : ℕ) (w : World)
    → LockInv w.shared w.threads
    → LockInv (restart pthread_create tmax w).shared (restart pthread_create tmax w).threads
unfolding restart
restart-LockInv creates tmax w inv = record {
  readers = inv.readers ∙ sym (total-start_servers reads_at (λ v. refl) creates tmax w.threads);
  waiters = inv.waiters ∙ sym (total-start_servers waits_at (λ v. refl) creates tmax w.threads);
  writer = inv.writer ∙ sym (total-start_servers writes_at (λ v. refl) creates tmax w.threads);
  fitting = total-start_servers misfit_at new_thread_fits creates tmax w.threads ∙ inv.fitting;
}

Step-LockInv :
    {w t : World} {e : Event} → Step w e t → LockInv w.shared w.threads → LockInv t.shared t.threads
Step-LockInv {w} (act i p {s} {ph} {h} at m) inv =
    Act-LockInv w.shared p.phase p.hold w.threads
      (set w.threads i (record p { phase = ph; hold = h })) m (Counts-set w.threads i p ph h at) inv
Step-LockInv {w} (kill e) inv = kill_from-LockInv w.first w inv
Step-LockInv {w} (joined k p e at o) inv = kill_from-LockInv (suc k) w inv
Step-LockInv {w} (start_again creates tmax e) inv = restart-LockInv creates tmax w inv

pub Reach-LockInv : {w : World} → Reach w → LockInv w.shared w.threads
unfolding total
Reach-LockInv (started creates tmax) =
    restart-LockInv creates tmax empty_world
      (record { readers = refl; waiters = refl; writer = refl; fitting = refl })
Reach-LockInv (later r st) = Step-LockInv st (Reach-LockInv r)

-- A thread that has ended and fits its place reads nothing, waits for nothing and, if it holds the
-- lock, is the slave's.
over_reads :
    (v : Server) (p : Phase) (h : Hold) → is_over p ≡ true → fits v p h ≡ true → reads h ≡ 0
unfolding may_go_on
over_reads v p h o f = ground arith

over_waits :
    (v : Server) (p : Phase) (h : Hold) → is_over p ≡ true → fits v p h ≡ true → waits h ≡ 0
unfolding may_go_on
over_waits v p h o f = ground arith

over_writes :
    (v : Server) (p : Phase) (h : Hold)
    → is_over p ≡ true
    → fits v p h ≡ true
    → 0 < writes h
    → v ≡ sync
unfolding may_go_on
over_writes v p h o f lt = ground arith

fits_at :
    {w : World} (i : ℕ) (p : Worker)
    → Reach w
    → get_elem? w.threads i ≡ some p
    → fits p.server p.phase p.hold ≡ true
fits_at {w} i p r at =
    let inv = Reach-LockInv r in ground (arith, inv.fitting, le-total misfit_at w.threads i p at)

-- A lock that nobody reads, waits for or holds is as at the start.
unlocked_again :
    (a : AccessData)
    → a.num_readers_active ≡ 0
    → a.num_writers_waiting ≡ 0
    → a.writer_active ≡ false
    → a ≡ unlocked
unlocked_again a r w f = cc

-- The lock of a thread that has ended: only a thread of the synchronization server can keep it.
abbrev pub LockLeft : World → Type 0
LockLeft w =
    (i : ℕ) × (p : Worker) × (get_elem? w.threads i ≡ some p)
    × (p.server ≡ sync)
    × (0 < writes p.hold)

-- In every reachable world whose killThreads has joined all threads, the lock's data are as at the
-- start, or a thread of the synchronization server has ended with the write lock.
pub lock_when_finished :
    {w : World} → Reach w → w.killer ≡ finished → (w.shared.access ≡ unlocked) ⊎ LockLeft w
lock_when_finished {w} r e = elim (Bool-cases w.shared.access.writer_active) [
  | inl a ↦
      let (i, p, at, lt) = find writes_at w.threads (ground (arith, inv.writer, a)) in
      inr (
        i,
        p,
        at,
        over_writes p.server p.phase p.hold (finished-all r e i p at) (fits_at i p r at) lt,
        lt,
      )
  | inr a ↦ inl (unlocked_again w.shared.access nobody_reads nobody_waits a)
]
  where
    inv : LockInv w.shared w.threads
    inv = Reach-LockInv r

    nobody_reads : w.shared.access.num_readers_active ≡ 0
    nobody_reads =
        inv.readers
        ∙ total-zero reads_at w.threads (λ i p at.
          over_reads p.server p.phase p.hold (finished-all r e i p at) (fits_at i p r at))

    nobody_waits : w.shared.access.num_writers_waiting ≡ 0
    nobody_waits =
        inv.waiters
        ∙ total-zero waits_at w.threads (λ i p at.
          over_waits p.server p.phase p.hold (finished-all r e i p at) (fits_at i p r at))
