-- ===== src/Tests/Connections.antt =====
-- Connections of the master at a concrete board.
use bulletin_board.Base.{◌≡◌, refl, true, [], ◌∷◌}
use bulletin_board.Base.Int.{pos}
use bulletin_board.Text.{codes, print_int}
use bulletin_board.LineReader.{no_data, received}
use bulletin_board.Lock.{unlocked}
use bulletin_board.Store.{Store, release_write_lock, done}
use bulletin_board.BoardFile.{undo_write, run_undo}
use bulletin_board.BoardFile.State.{access_after}
use bulletin_board.SyncServer.{
  abandon, undo_and_release, Session, new_session, serve, awaiting_decision,
}
use bulletin_board.SyncServer.Decision.{
  keep, undone, confirmed, refused, success_noop, unsuccess_undo, serve-Decides, settled,
}
use bulletin_board.SyncServer.Releases.{serve_releases}
use bulletin_board.SyncServer.Flows.{
  precommit_message, commit_message, write_command, written_messages, write_connection,
}
use bulletin_board.Tests.{board, board-IsFree, bob-IsArgument, hello-IsArgument}

write_connection_example :
    serve new_session
      (received (precommit_message (codes "bob"))
        ∷ received (commit_message (write_command (codes "hello")))
        ∷ received unsuccess_undo
        ∷ [])
      board
    ≡ done (written_messages board) board
write_connection_example =
    write_connection (codes "bob") (codes "hello") board (received unsuccess_undo ∷ []) undone
      bob-IsArgument hello-IsArgument refl refl board-IsFree refused

abbrev awaiting : Session
awaiting = record new_session {
  status = awaiting_decision;
  undo_commit_operation = undo_write (pos 3);
}

abbrev with_lock : Store
with_lock = record board { access_data = access_after true unlocked }

serve-Decides_example :
    serve awaiting (received success_noop ∷ []) with_lock
    ≡ done []
        (settled keep with_lock (record with_lock { content = codes "0/n"; message_number = 1 }))
serve-Decides_example =
    serve-Decides awaiting with_lock
      (record with_lock { content = codes "0/n"; message_number = 1 }) refl
      (unfold run_undo print_int in refl) confirmed

-- The silent master, at which the write is taken back.
serve_releases_example :
    (record board { content = codes "0/n"; message_number = 1 }).access_data ≡ unlocked
serve_releases_example =
    serve_releases (no_data ∷ []) unlocked awaiting with_lock []
      (record board { content = codes "0/n"; message_number = 1 }) (refl, refl) refl tt
      (unfold serve abandon undo_and_release release_write_lock run_undo print_int in refl)
