-- ===== src/Transaction/Change.antt =====
-- What a transaction needs of a command, on the master and on a slave.
use bulletin_board.Base.{◌≡◌, ◌⊎◌, true, List, [], ◌∷◌}
use bulletin_board.Text.{Bytes}
use bulletin_board.LineReader.{Receipt, received}
use bulletin_board.Store.{Store, done}
use bulletin_board.SyncServer.{new_session, serve, operation_failed}
use bulletin_board.SyncServer.Decision.{Decides, Verdict, keep, undone}
use bulletin_board.SyncServer.Flows.{precommit_message, commit_message}
use bulletin_board.BoardServer.{completion_answer}
use bulletin_board.PeerCommunication.{local_operation}

-- The slave ends with this board, whatever it has answered.
abbrev pub EndsWith : List Receipt → Store → Store → Type 0
EndsWith rs s t = (m : List Bytes) × (serve new_session rs s ≡ done m t)

abbrev pub decided : Verdict → Store → Store → Store
decided keep changed before = changed
decided undone changed before = before

-- A command of this user: what it makes of a board on which it can be carried out, the answer to the
-- client, and that a slave carries it out and takes it back.
pub record Change (user : Bytes) : Type 1 where
  pub name : Bytes
  pub command : Bytes
  pub IsReady : Store → Type 0
  pub IsHealthy : Store → Type 0
  pub answer : Store → Bytes
  pub changed : Store → Store
  pub carried_out :
      (s : Store)
      → IsReady s
      → ((response : Bytes) × (local_operation user command s ≡ done response s)
          × (operation_failed response ≡ true))
        ⊎ (local_operation user command s ≡ done (answer s) (changed s))
  pub failure : operation_failed (completion_answer name []) ≡ true
  pub connection :
      (s : Store) (rs : List Receipt) (v : Verdict)
      → IsHealthy s
      → Decides rs v
      → EndsWith
          (received (precommit_message user) ∷ received (commit_message command) ∷ rs)
          s
          (decided v (changed s) s)
