-- ===== src/Transaction.antt =====
-- peer-communication.cpp with sync-server.cpp: what the master's threads send, and what the slaves
-- at the other ends of their connections make of it.
pub mod Change
pub mod Slave
pub mod Atomic
pub mod Writes
pub mod Replacements
pub mod Late
pub mod Clients
use bulletin_board.Base.{◌≡◌, refl, Bool, true, false, List, [], ◌∷◌, ◌++◌, if◌then◌else◌}
use bulletin_board.Text.{Bytes}
use bulletin_board.LineReader.{Receipt, no_data, received}
use bulletin_board.SyncServer.Decision.{Verdict, keep, undone, success_noop, unsuccess_undo, abort}
use bulletin_board.SyncServer.Flows.{precommit_message, commit_message}
use bulletin_board.PeerCommunication.{
  confirms, unreached, unready, broken, aborted, refused, unanswered, broken_commit, confirmed,
  Ending, Phase, connecting, awaits_ready, ready_waits, ready_counted, awaits_commit, commit_waits,
  commit_counted, commit_agreed, operated, ended,
}
use bulletin_board.PeerCommunication.Threads.{receive_ready, receive_success}
use bulletin_board.PeerCommunication.Threads.{
  Shared, Move, connect, send_abort, send_commit, send_decision,
}
use bulletin_board.PeerCommunication

abbrev pub decision_message : Bool → Bytes
decision_message true = success_noop
decision_message false = unsuccess_undo

-- What a step of a thread sends to its peer.
unfoldable pub sends :
    {user command : Bytes} {s s' : Shared} {p p' : Phase} → Move user command s p s' p' → List Bytes
sends {user} connect = precommit_message user ∷ []
sends (send_abort h) = abort ∷ []
sends {command} (send_commit h) = commit_message command ∷ []
sends {s} send_decision = decision_message (confirms s.statistics) ∷ []
sends _ = []

-- What a thread has sent by the time it stands there.
unfoldable pub conversation : Bytes → Bytes → Phase → List Bytes
conversation user command connecting = []
conversation user command awaits_ready = precommit_message user ∷ []
conversation user command ready_waits = precommit_message user ∷ []
conversation user command ready_counted = precommit_message user ∷ []
conversation user command (ended unreached) = []
conversation user command (ended unready) = precommit_message user ∷ []
conversation user command (ended broken) = precommit_message user ∷ []
conversation user command (ended aborted) = precommit_message user ∷ abort ∷ []
conversation user command (ended confirmed) =
    precommit_message user ∷ commit_message command ∷ success_noop ∷ []
conversation user command (ended PeerCommunication.undone) =
    precommit_message user ∷ commit_message command ∷ unsuccess_undo ∷ []
conversation user command _ = precommit_message user ∷ commit_message command ∷ []

-- Each message arrives whole and in time, and behind the last one the connection is closed or
-- silent.
pub data Hears : List Bytes → List Receipt → Type 0 where
  silent : Hears [] []
  timed_out : {rs : List Receipt} → Hears [] (no_data ∷ rs)
  closed : {rs : List Receipt} → Hears [] (received [] ∷ rs)
  hears :
      {m : Bytes} {ms : List Bytes} {rs : List Receipt}
      → Hears ms rs
      → Hears (m ∷ ms) (received m ∷ rs)

-- What the end of a thread means for its peer.
abbrev pub verdict_of : Ending → Verdict
verdict_of confirmed = keep
verdict_of _ = undone

decision_sent :
    (user command : Bytes) (b : Bool)
    → conversation user command (if b then ended confirmed else ended PeerCommunication.undone)
      ≡ conversation user command operated ++ (decision_message b ∷ [])
unfolding conversation
decision_sent user command true = refl
decision_sent user command false = refl

waiting_sent :
    (user command : Bytes) (b : Bool)
    → (conversation user command (if b then ready_waits else ready_counted)
        ≡ conversation user command awaits_ready ++ [])
      × (conversation user command (if b then commit_waits else commit_counted)
          ≡ conversation user command awaits_commit ++ [])
unfolding conversation
waiting_sent user command true = (refl, refl)
waiting_sent user command false = (refl, refl)

-- The record of what has been sent grows by what each step sends.
pub conversation-Move :
    {user command : Bytes} {s s' : Shared} {p p' : Phase} (m : Move user command s p s' p')
    → conversation user command p' ≡ conversation user command p ++ sends m
unfolding conversation sends
conversation-Move {user} {command} {s} (receive_ready r e) = (waiting_sent user command _).0
conversation-Move {user} {command} {s} (receive_success r e) = (waiting_sent user command _).1
conversation-Move {user} {command} {s} send_decision =
    decision_sent user command (confirms s.statistics)
conversation-Move _ = refl
