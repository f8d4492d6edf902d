-- ===== src/Lock/Threads.antt =====
-- The threads that share the lock, interleaved. What a thread does between pthread_mutex_lock and
-- pthread_cond_wait or pthread_mutex_unlock is one step, since it holds `mut` throughout.
use bulletin_board.Base.{ℕ, ◌≡◌, ◌⊎◌, Bool, true, false, some, List, map, get_elem?, set, replicate}
use bulletin_board.Lock.{
  AccessData, unlocked, announce_writer, writer_must_wait, enter_writer, leave_writer,
  reader_must_wait, enter_reader, leave_reader, last_reader_leaves,
}

-- Where a thread stands. `asleep` is inside pthread_cond_wait; `awake` is back from it, before the
-- loop's next test.
pub data Pc : Type 0 where
  outside : Pc
  reader_asleep : Pc
  reader_awake : Pc
  reading : Pc
  writer_asleep : Pc
  writer_awake : Pc
  writing : Pc
  -- a thread that has ended, or serves another connection, and has not released the lock
  kept_lock : Pc
  -- a thread that asks to write while it keeps the lock itself
  owner_asleep : Pc
  owner_awake : Pc

pub record System : Type 0 where
  pub access : AccessData
  pub threads : List Pc

-- `pthread_cond_broadcast(&cond)`
abbrev pub wake : Pc → Pc
wake reader_asleep = reader_awake
wake writer_asleep = writer_awake
wake owner_asleep = owner_awake
wake p = p

abbrev pub wake_if : Bool → List Pc → List Pc
wake_if true ts = map wake ts
wake_if false ts = ts

-- A step of thread `i`: what it finds, what it does to the data, where it goes, and whether it
-- broadcasts.
pub data Move (a : AccessData) : Pc → AccessData → Pc → Bool → Type 0 where
  -- readMessageFromFile: the loop's test, at first and after each wake-up
  read_wait :
      {p : Pc}
      → (p ≡ outside) ⊎ (p ≡ reader_awake)
      → reader_must_wait a ≡ true
      → Move a p a reader_asleep false
  read_enter :
      {p : Pc}
      → (p ≡ outside) ⊎ (p ≡ reader_awake)
      → reader_must_wait a ≡ false
      → Move a p (enter_reader a) reading false
  read_leave : Move a reading (leave_reader a) outside (last_reader_leaves a)
  -- acquireWriteLock
  write_wait :
      writer_must_wait (announce_writer a) ≡ true
      → Move a outside (announce_writer a) writer_asleep false
  write_enter :
      writer_must_wait (announce_writer a) ≡ false
      → Move a outside (enter_writer (announce_writer a)) writing false
  write_again : writer_must_wait a ≡ true → Move a writer_awake a writer_asleep false
  write_enter_awake :
      writer_must_wait a ≡ false → Move a writer_awake (enter_writer a) writing false
  -- releaseWriteLock
  write_leave : Move a writing (leave_writer a) outside true
  -- sync-server.cpp: the loop is left by `break` behind a receive that failed, or the thread is
  -- cancelled while it awaits the decision
  write_keeps : Move a writing a kept_lock false
  -- a later COMMIT of such a thread: the loop's test holds for ever, since the lock is its own
  owner_wait :
      writer_must_wait (announce_writer a) ≡ true
      → Move a kept_lock (announce_writer a) owner_asleep false
  owner_again : writer_must_wait a ≡ true → Move a owner_awake a owner_asleep false
  owner_wakes : Move a owner_asleep a owner_awake false
  -- pthread_cond_wait may return with no broadcast
  reader_wakes : Move a reader_asleep a reader_awake false
  writer_wakes : Move a writer_asleep a writer_awake false

pub data Step (s : System) : System → Type 0 where
  step :
      (i : ℕ) {p : Pc} {a : AccessData} {p' : Pc} {b : Bool}
      → get_elem? s.threads i ≡ some p
      → Move s.access p a p' b
      → Step s (record { access = a; threads = wake_if b (set s.threads i p') })

-- The start: `n` threads that have asked for nothing.
pub data Reach (n : ℕ) : System → Type 0 where
  start : Reach n (record { access = unlocked; threads = replicate n outside })
  later : {s t : System} → Reach n s → Step s t → Reach n t
