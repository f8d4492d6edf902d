-- ===== src/Pool/Acts.antt =====
-- What a thread of either server does between two calls that may wait: a stretch of
-- handle_bulletin_board_client or handle_sync_server_client, on its socket and on the lock.
use bulletin_board.Base.{
  ℕ, ◌≡◌, Bool, true, false, some, List, ◌∷◌, if◌then◌else◌, ◌==◌, none, Option, ◌≢◌,
}
use bulletin_board.Base.Counting.{total}
use bulletin_board.Lock.{
  AccessData, announce_writer, writer_must_wait, enter_writer, leave_writer, reader_must_wait,
  enter_reader, leave_reader,
}
use bulletin_board.Pool.{
  Server, board, sync, Phase, accepting, receiving, handling, abandoning, closing, returned,
  cancelled, Hold, free, reading, waiting, writing, kept, deadlocked, close_socket,
}

-- What the threads share: the open sockets of clients, and the data of the lock.
pub record Shared : Type 0 where
  pub sockets : List ℕ
  pub access : AccessData

unfoldable pub same : ℕ → ℕ → ℕ
same e x = if e == x then 1 else 0

abbrev pub opened : ℕ → Shared → Shared
opened e s = record s { sockets = e ∷ s.sockets }

-- `shutdown` and `close` at the end of a connection, and `cleanup_handler`
abbrev pub closed : ℕ → Shared → Shared
closed e s = record s { sockets = close_socket e s.sockets }

abbrev pub with_access : Shared → AccessData → Shared
with_access s a = record s { access = a }

-- Whether the body of the loop over the requests may end with this hold: the slave awaits the
-- decision with the lock.
unfoldable pub may_go_on : Server → Hold → Bool
may_go_on board free = true
may_go_on board _ = false
may_go_on sync free = true
may_go_on sync writing = true
may_go_on sync kept = true
may_go_on sync _ = false

-- A `break` does not release the lock.
unfoldable pub behind_break : Hold → Hold
behind_break writing = kept
behind_break h = h

-- The socket for which cleanup_handler stands when the thread may be cancelled.
unfoldable pub cancellable : Phase → Option ℕ
cancellable (receiving e true) = some e
cancellable (abandoning e true) = some e
cancellable (closing e true) = some e
cancellable _ = none

-- A stretch of a thread's code. The last index tells whether it waits for the client or the master.
pub data Act (v : Server) (s : Shared) (requested : Bool)
    : Phase → Hold → Shared → Phase → Hold → Bool → Type 0 where
  -- accept(), which gives a descriptor that is not in use
  accept :
      {h : Hold} (e : ℕ)
      → total (same e) s.sockets ≡ 0
      → Act v s requested accepting h (opened e s) (receiving e true) h true
  accept_fails : {h : Hold} → Act v s requested accepting h s returned h false
  -- a request, or the end of the connection or a fault, with PTHREAD_CANCEL_DISABLE behind it
  receive :
      {h : Hold} {e : ℕ} {enabled : Bool}
      → Act v s requested (receiving e enabled) h s (handling e) h true
  -- recv_nodata: the board's client has left, or the master was silent for seven seconds
  hang_up :
      {h : Hold} {e : ℕ} {enabled : Bool}
      → Act v s requested (receiving e enabled) h s (abandoning e enabled) h true
  -- acquireWriteLock, before its loop and behind it
  write_waits :
      {e : ℕ}
      → writer_must_wait (announce_writer s.access) ≡ true
      → Act v s requested
          (handling e)
          free
          (with_access s (announce_writer s.access))
          (handling e)
          waiting
          false
  write_enters :
      {e : ℕ}
      → writer_must_wait (announce_writer s.access) ≡ false
      → Act v s requested
          (handling e)
          free
          (with_access s (enter_writer (announce_writer s.access)))
          (handling e)
          writing
          false
  write_enters_late :
      {e : ℕ}
      → writer_must_wait s.access ≡ false
      → Act v s requested
          (handling e)
          waiting
          (with_access s (enter_writer s.access))
          (handling e)
          writing
          false
  write_deadlocks :
      {e : ℕ}
      → Act v s requested
          (handling e)
          kept
          (with_access s (announce_writer s.access))
          (handling e)
          deadlocked
          false
  -- releaseWriteLock
  write_leaves :
      {e : ℕ}
      → Act v s requested
          (handling e)
          writing
          (with_access s (leave_writer s.access))
          (handling e)
          free
          false
  -- readMessageFromFile, which only the board server calls
  read_enters :
      {e : ℕ}
      → v ≡ board
      → reader_must_wait s.access ≡ false
      → Act v s requested
          (handling e)
          free
          (with_access s (enter_reader s.access))
          (handling e)
          reading
          false
  read_leaves :
      {e : ℕ}
      → Act v s requested
          (handling e)
          reading
          (with_access s (leave_reader s.access))
          (handling e)
          free
          false
  -- the end of the loop's body, with PTHREAD_CANCEL_ENABLE
  next_request :
      {h : Hold} {e : ℕ}
      → may_go_on v h ≡ true
      → Act v s requested (handling e) h s (receiving e true) h false
  -- `continue` behind a REPLACE that is refused: cancellation stays disabled
  refuse :
      {e : ℕ} → v ≡ board → Act v s requested (handling e) free s (receiving e false) free false
  -- `break`: QUIT, or the end of a transaction, or a receive that failed
  leave_loop :
      {h : Hold} {e : ℕ}
      → may_go_on v h ≡ true
      → Act v s requested (handling e) h s (closing e false) (behind_break h) false
  -- the slave's `n == 0`
  closed_by_master :
      {h : Hold} {e : ℕ}
      → v ≡ sync
      → may_go_on v h ≡ true
      → Act v s requested (handling e) h s (abandoning e false) h false
  -- what the slave does behind the loop when nothing was decided, and what all others skip
  abandon :
      {e : ℕ} {enabled : Bool}
      → Act v s requested
          (abandoning e enabled)
          writing
          (with_access s (leave_writer s.access))
          (closing e enabled)
          free
          false
  nothing_to_abandon :
      {h : Hold} {e : ℕ} {enabled : Bool}
      → h ≢ writing
      → Act v s requested (abandoning e enabled) h s (closing e enabled) h false
  -- the end of the connection, and back to the top of the loop
  close :
      {h : Hold} {e : ℕ} {enabled : Bool}
      → Act v s requested (closing e enabled) h (closed e s) accepting h false
  -- a cancellation point, once cancellation is requested, and cleanup_handler
  cancel_accept : {h : Hold} → requested ≡ true → Act v s requested accepting h s cancelled h false
  cancel :
      {p : Phase} {h : Hold} {e : ℕ}
      → requested ≡ true
      → cancellable p ≡ some e
      → Act v s requested p h (closed e s) cancelled h false
