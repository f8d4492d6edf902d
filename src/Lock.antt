-- ===== src/Lock.antt =====
-- file-operations.cpp: the write-preferring readers-writer lock. AccessData with the tests and the
-- updates that the functions make under the mutex, one by one.
pub mod Threads
pub mod Invariant
pub mod Safety
use bulletin_board.Base.{ℕ, ◌+◌, ◌-◌, Bool, true, false, ◌||◌, ltb, ◌==◌}

pub record AccessData : Type 0 where
  pub num_readers_active : ℕ
  pub num_writers_waiting : ℕ
  pub writer_active : Bool

-- `AccessData{}`
abbrev pub unlocked : AccessData
unlocked = record { num_readers_active = 0; num_writers_waiting = 0; writer_active = false }

-- `acquireWriteLock`, before its loop
unfoldable pub announce_writer : AccessData → AccessData
announce_writer a = record a { num_writers_waiting = a.num_writers_waiting + 1 }

-- the loop's test in `acquireWriteLock`
unfoldable pub writer_must_wait : AccessData → Bool
writer_must_wait a = ltb 0 a.num_readers_active || a.writer_active

-- `acquireWriteLock`, behind its loop
unfoldable pub enter_writer : AccessData → AccessData
enter_writer a = record a { num_writers_waiting = a.num_writers_waiting - 1; writer_active = true }

-- `releaseWriteLock`; it broadcasts always
unfoldable pub leave_writer : AccessData → AccessData
leave_writer a = record a { writer_active = false }

-- the loop's test in `readMessageFromFile`
unfoldable pub reader_must_wait : AccessData → Bool
reader_must_wait a = ltb 0 a.num_writers_waiting || a.writer_active

unfoldable pub enter_reader : AccessData → AccessData
enter_reader a = record a { num_readers_active = a.num_readers_active + 1 }

unfoldable pub leave_reader : AccessData → AccessData
leave_reader a = record a { num_readers_active = a.num_readers_active - 1 }

-- whether the reader that leaves broadcasts
unfoldable pub last_reader_leaves : AccessData → Bool
unfolding leave_reader
last_reader_leaves a = (leave_reader a).num_readers_active == 0
