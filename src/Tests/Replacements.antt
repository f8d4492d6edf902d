-- ===== src/Tests/Replacements.antt =====
-- A REPLACE of the second message, on one slave and in a transaction.
use bulletin_board.Store.{M}
use bulletin_board.Text.{Bytes}
use bulletin_board.Base.{◌≡◌, false, [], ◌∷◌, arith}
use bulletin_board.Base.Int.{pos}
use bulletin_board.Text.{codes, print_int, socket_message}
use bulletin_board.LineReader.{received}
use bulletin_board.Store.{Store, done}
use bulletin_board.BoardFile.{wrote}
use bulletin_board.BoardFile.State.{entry}
use bulletin_board.BoardFile.Rollback.{replaced}
use bulletin_board.BoardFile.Arguments.{argument}
use bulletin_board.SyncServer.{new_session, serve, ready_answer}
use bulletin_board.SyncServer.Decision.{refused, unsuccess_undo}
use bulletin_board.SyncServer.Flows.{precommit_message, commit_message}
use bulletin_board.SyncServer.Replacements.{
  CanReplace, replace_command, replaced_answer, replace_connection,
}
use bulletin_board.PeerCommunication.{confirmed}
use bulletin_board.PeerCommunication.Threads.{System}
use bulletin_board.Tests.{
  board, board-Holds, board-IsFree, bob-IsArgument, hello-IsArgument, first_line,
}
use bulletin_board.Tests.Transactions.{closed}

board-CanReplace :
    CanReplace (first_line ∷ []) [] board (codes "bob") (codes "hello") (codes "ann") (codes "yo")
unfolding print_int
board-CanReplace = record {
  holds = board-Holds;
  free = board-IsFree;
  small = omega arith;
  short = omega arith;
  user_IsArgument = bob-IsArgument;
  sent_IsArgument = (omega arith, (ground arith, omega arith), omega arith);
  message_IsLine = hello-IsArgument.0;
  message_IsWord = (ground arith, omega arith);
  fits = omega arith;
  old_user_IsLine = omega arith;
  old_user_IsWord = (ground arith, omega arith);
  old_message_IsLine = omega arith;
  old_message_IsWord = (ground arith, omega arith);
}

replace_connection_example :
    serve new_session
      (received (precommit_message (codes "bob"))
        ∷ received (commit_message (replace_command (argument 1 (codes "hello"))))
        ∷ received unsuccess_undo
        ∷ [])
      board
    ≡ done (socket_message 50 (codes "READY") ready_answer ∷ replaced_answer 1 ∷ []) board
replace_connection_example =
    replace_connection (first_line ∷ []) [] board (codes "bob") (codes "hello") (codes "ann")
      (codes "yo") board-CanReplace (received unsuccess_undo ∷ []) _ refused

abbrev after_replacement : Store
after_replacement = replaced (first_line ∷ []) (entry 1 (codes "bob") (codes "hello")) [] board

abbrev finished : System
finished = closed (wrote (pos 1) false) after_replacement confirmed

-- The transaction as it ended in `finished`.
abbrev ran : Bytes → Bytes → M Bytes
ran user request s = done (wrote (pos 1) false) after_replacement
