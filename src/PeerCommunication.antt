-- ===== src/PeerCommunication.antt =====
-- peer-communication.cpp: the master's side of the two-phase commit, for one command of a client.
pub mod Threads
pub mod Votes
pub mod Waiters
pub mod Responses
pub mod Outcome
pub mod Agreement
pub mod Answers
pub mod Blocked
pub mod Steps
pub mod Progress
pub mod Wakeups
pub mod Peers
use bulletin_board.Base.{
  ℕ, zero, suc, ◌+◌, ◌-◌, ◌≡◌, Bool, true, false, not, ◌&&◌, Option, none, some, List, [], ◌∷◌, ltb,
  if◌then◌else◌, length, set, get_elem?, replicate,
}
use bulletin_board.Text.{Bytes, codes, tokenize, str_eq, is_empty}
use bulletin_board.LineReader.{Receipt, no_data, failed, received}
use bulletin_board.Store.{Store, Result, done, M, pure, crash, ◌>>=◌}
use bulletin_board.BoardFile.{no_operation, write_operation, replace_operation}
use bulletin_board.SyncServer.{operation_failed}

-- `SyncMasterServerStatus`
pub data MasterStatus : Type 0 where
  precommit_sent : MasterStatus
  commit_sent : MasterStatus

-- `PeerCommunicationStatistics`; the fields are numberOfPositivePrecommitAcknowledgementsPending,
-- shouldAbort, numberOfSuccessfulCommitAcknowledgementsPending, didOneOrMorePeersFailToCommit and
-- masterOperationCompletionMessage.
pub record Statistics : Type 0 where
  pub ready_pending : ℕ
  pub should_abort : Bool
  pub commit_pending : ℕ
  pub did_fail : Bool
  pub completion : Bytes

abbrev pub new_statistics : ℕ → Statistics
new_statistics peers = record {
  ready_pending = peers;
  should_abort = false;
  commit_pending = peers;
  did_fail = false;
  completion = [];
}

-- `notifyThreadsToAbort`, but for the broadcast
unfoldable pub notify_threads_to_abort : Statistics → Statistics
notify_threads_to_abort st = if not st.should_abort then record st { should_abort = true } else st

-- `notifyThreadsToUndoCommit`, but for the broadcast
unfoldable pub notify_threads_to_undo_commit : Statistics → Statistics
notify_threads_to_undo_commit st = if not st.did_fail then record st { did_fail = true } else st

-- The count of a READY. It is an `unsigned long`, and above 0 here (PeerCommunication.Votes).
unfoldable pub acknowledge_ready : Statistics → Statistics
acknowledge_ready st = record st { ready_pending = st.ready_pending - 1 }

-- The test of the loop around pthread_cond_wait.
unfoldable pub waits_for_ready : Statistics → Bool
waits_for_ready st = ltb 0 st.ready_pending && not st.should_abort

unfoldable pub acknowledge_commit : Statistics → Statistics
acknowledge_commit st = record st { commit_pending = st.commit_pending - 1 }

unfoldable pub waits_for_commit : Statistics → Bool
waits_for_commit st = ltb 0 st.commit_pending && not st.did_fail

-- `commandTokens[0] == WRITE ? writeOperation : replaceOperation`, called on `commandTokens[1]`
unfoldable pub local_operation_on : Bytes → List Bytes → M Bytes
unfolding str_eq
local_operation_on user (name ∷ argument ∷ _) = do
  answer ←
      if str_eq name (codes "WRITE")
      then write_operation user argument false no_operation
      else replace_operation user argument false no_operation
  pure answer.0
local_operation_on user _ = crash

unfoldable pub local_operation : Bytes → Bytes → M Bytes
local_operation user command = local_operation_on user (tokenize command b' ')

-- `shouldSendPositiveConfirmationToPeers`
unfoldable pub confirms : Statistics → Bool
confirms st = not st.did_fail && not (operation_failed st.completion)

-- What a thread makes of the peer's answer.
pub data Reaction : Type 0 where
  ready : Reaction
  success : Reaction
  unsuccess : Reaction
  passed_over : Reaction
  no_answer : Reaction  -- n == recv_nodata or n == 0
  receive_failed : Reaction

-- The tests on `tokens[1]` and `currentStatus`.
unfoldable pub answer_to : MasterStatus → Bytes → Reaction
answer_to precommit_sent name = if str_eq name (codes "READY") then ready else passed_over
answer_to commit_sent name =
    if str_eq name (codes "COMMIT_SUCCESS")
    then success
    else if str_eq name (codes "COMMIT_UNSUCCESS")
    then unsuccess
    else passed_over

-- `none` for an access to `tokens[1]` out of bounds
unfoldable pub react_to : MasterStatus → List Bytes → Option Reaction
react_to status (code ∷ name ∷ _) = some (answer_to status name)
react_to status _ = none

-- One turn of the loop up to the tests: `response[n - 1] = '\0'`, and the tokens.
unfoldable pub react : MasterStatus → Receipt → Option Reaction
react status no_data = some no_answer
react status failed = some receive_failed
react status (received []) = some no_answer
react status (received (c ∷ chunk)) =
    react_to status (tokenize (set (c ∷ chunk) (length chunk) 0) b' ')

-- How a thread has ended.
pub data Ending : Type 0 where
  unreached : Ending  -- createSocket failed
  unready : Ending  -- no answer to PRECOMMIT
  broken : Ending  -- a receive failed after PRECOMMIT
  aborted : Ending  -- ABORT sent
  refused : Ending  -- COMMIT_UNSUCCESS received
  unanswered : Ending  -- no answer to COMMIT
  broken_commit : Ending  -- a receive failed after COMMIT
  confirmed : Ending  -- SUCCESS_NOOP sent
  undone : Ending  -- UNSUCCESS_UNDO sent

-- Where a thread of communicateWithPeer stands.
pub data Phase : Type 0 where
  connecting : Phase
  awaits_ready : Phase  -- PRECOMMIT sent
  ready_waits : Phase  -- in the loop around pthread_cond_wait
  ready_counted : Phase  -- behind it, before shouldAbort is read
  awaits_commit : Phase  -- COMMIT sent
  commit_waits : Phase
  commit_counted : Phase  -- before didOneOrMorePeersFailToCommit is read
  commit_agreed : Phase  -- it was false
  operated : Phase  -- before the completion message is read
  ended : Ending → Phase
