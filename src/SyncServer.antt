-- ===== src/SyncServer.antt =====
-- sync-server.cpp: the slave's side of the two-phase commit, for one connection of the master.
pub mod Answers
pub mod Discipline
pub mod Releases
pub mod Decision
pub mod Requests
pub mod Flows
pub mod Replacements
use bulletin_board.Base.{
  ℕ, zero, suc, ◌+◌, ◌-◌, ◌≡◌, refl, Bool, true, false, not, ◌&&◌, ◌||◌, Option, none, some, List,
  [], ◌∷◌, ◌++◌, ltb, leb, ◌==◌, if◌then◌else◌, length, get_elem?, set,
}
use bulletin_board.Text.{Bytes, codes, tokenize, str_eq, has_infix, socket_message}
use bulletin_board.LineReader.{Receipt, no_data, failed, received}
use bulletin_board.Store.{
  Store, Result, done, crashes, M, pure, crash, bind, ◌>>=◌, ◌>>◌, release_write_lock,
}
use bulletin_board.BoardFile.{Undo, no_operation, write_operation, replace_operation, run_undo}

-- `SyncSlaveServerStatus`
pub data Status : Type 0 where
  idle : Status
  precommit_acknowledged : Status
  awaiting_decision : Status  -- AWAITING_SUCCESS_OR_UNDO_BROADCAST

-- The locals of a connection.
pub record Session : Type 0 where
  pub status : Status
  pub undo_commit_operation : Undo
  pub operation_performed : Bytes
  pub user : Bytes

abbrev pub new_session : Session
new_session = record {
  status = idle;
  undo_commit_operation = no_operation;
  operation_performed = [];
  user = [];
}

-- `req[n - 1] = '\0'`, and at `n - 2` for a '\r'. With one byte, `req[-1]` is read.
unfoldable pub terminate : Bytes → Option Bytes
terminate chunk =
    let n = length chunk in
    let cut = set chunk (n - 1) 0 in
    if ltb n 2 then none else elim (get_elem? cut (n - 2)) [
      | none ↦ none
      | some c ↦ if c == b'\r' then some (set cut (n - 2) 0) else some cut
    ]

-- How a turn of the loop ends: the loop goes on, or is left by `break`.
pub data Turn : Type 0 where
  next : Session → Turn
  leave : Turn

abbrev pub sent_in : List Bytes → Turn → M (List Bytes × Turn)
sent_in messages turn = pure (messages, turn)

-- `response.find(ERROR) != string::npos`
unfoldable pub operation_failed : Bytes → Bool
unfolding has_infix
operation_failed response = has_infix (codes "ERROR") response

-- What the slave answers to COMMIT.
unfoldable pub commit_answer : Bytes → Bytes
unfolding operation_failed socket_message
commit_answer response =
    socket_message 50
      (if operation_failed response then codes "COMMIT_UNSUCCESS" else codes "COMMIT_SUCCESS")
      response

-- `tokens[2] == WRITE ? writeOperation : replaceOperation`, called
unfoldable pub perform : Bytes → Bytes → Bytes → Undo → M (Bytes × Undo)
unfolding str_eq
perform user command argument undo =
    if str_eq command (codes "WRITE")
    then write_operation user argument true undo
    else replace_operation user argument true undo

-- The branch for COMMIT, on `tokens[2]` and `tokens[3]`.
unfoldable pub commit : Session → Bytes → Bytes → M (List Bytes × Turn)
commit session command argument = do
  answer ← perform session.user command argument session.undo_commit_operation
  sent_in (commit_answer answer.0 ∷ []) (
      if operation_failed answer.0
      then leave
      else next (record session {
        status = awaiting_decision;
        undo_commit_operation = answer.1;
        operation_performed = command;
      }))

abbrev pub ready_answer : Bytes
ready_answer = codes "User stored. Syncronization Server available."

-- `tokens[2]`, and `tokens[2]` with `tokens[3]`: a missing one is an access out of bounds.
unfoldable pub precommit_with : Session → List Bytes → M (List Bytes × Turn)
precommit_with session (user ∷ _) =
    sent_in (socket_message 50 (codes "READY") ready_answer ∷ [])
      (next (record session { status = precommit_acknowledged; user = user }))
precommit_with session [] = crash

unfoldable pub commit_with : Session → List Bytes → M (List Bytes × Turn)
commit_with session (command ∷ argument ∷ _) = commit session command argument
commit_with session _ = crash

-- `undoCommitOperation(); releaseWriteLock(operationPerformed);`
unfoldable pub undo_and_release : Session → M (Unit {0})
undo_and_release session = do run_undo session.undo_commit_operation; release_write_lock

-- The chain of tests on `tokens[1]` and the status; `arguments` is what follows `tokens[1]`.
unfoldable pub dispatch : Status → Session → Bytes → List Bytes → M (List Bytes × Turn)
unfolding str_eq
dispatch idle session name arguments =
    if str_eq name (codes "PRECOMMIT")
    then precommit_with session arguments
    else sent_in [] (next session)
dispatch precommit_acknowledged session name arguments =
    if str_eq name (codes "ABORT")
    then sent_in [] leave
    else if str_eq name (codes "COMMIT")
    then commit_with session arguments
    else sent_in [] (next session)
dispatch awaiting_decision session name arguments =
    if str_eq name (codes "SUCCESS_NOOP")
    then (do release_write_lock; sent_in [] leave)
    else if str_eq name (codes "UNSUCCESS_UNDO")
    then (do undo_and_release session; sent_in [] leave)
    else sent_in [] (next session)

unfoldable pub handle_tokens : Session → List Bytes → M (List Bytes × Turn)
handle_tokens session (code ∷ name ∷ arguments) = dispatch session.status session name arguments
handle_tokens session _ = crash

-- The request in the buffer; with none the buffer was read in front of its start.
unfoldable pub handle_request : Session → Option Bytes → M (List Bytes × Turn)
handle_request session none = crash
handle_request session (some request) = handle_tokens session (tokenize request b' ')

-- One turn of the loop, on the bytes received.
unfoldable pub handle_chunk : Session → Bytes → M (List Bytes × Turn)
handle_chunk session chunk = handle_request session (terminate chunk)

-- Behind the loop, when the master was silent for seven seconds or has closed the connection.
unfoldable pub abandon : Status → Session → M (Unit {0})
abandon awaiting_decision session = undo_and_release session
abandon _ session = pure tt

-- What follows a turn; `again` is the loop on what comes next.
unfoldable pub follow : (Session → M (List Bytes)) → List Bytes → Turn → M (List Bytes)
follow again sent leave = pure sent
follow again sent (next session) = do rest ← again session; pure (sent ++ rest)

-- The loop over what recv_nonblock returns, with what stands behind it: the messages sent. At the
-- end of the list nothing more comes, and the call times out. A failed call leaves the loop, and
-- the test behind it passes it over.
unfoldable pub serve : Session → List Receipt → M (List Bytes)
serve session [] = do abandon session.status session; pure []
serve session (no_data ∷ rs) = do abandon session.status session; pure []
serve session (failed ∷ rs) = pure []
serve session (received [] ∷ rs) = do abandon session.status session; pure []
serve session (received (c ∷ chunk) ∷ rs) = do
  turn ← handle_chunk session (c ∷ chunk)
  follow (λ session'. serve session' rs) turn.0 turn.1
