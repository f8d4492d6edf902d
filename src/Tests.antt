-- ===== src/Tests.antt =====
-- The theorems at concrete boards, connections and interleavings.
mod Connections
mod Threads
mod Transactions
mod Clients
mod Whole
mod Replacements
mod Startup
mod Lines
mod Rounds
mod Signals
use bulletin_board.Base.{
  ℕ, ◌+◌, ◌-◌, ◌≤◌, ◌<◌, ◌≡◌, ◌≢◌, inl, inr, refl, Bool, true, false, Option, none, List, [], ◌∷◌,
  ◌++◌, arith, length,
}
use bulletin_board.Base.Int.{pos, negsuc}
use bulletin_board.Text.{Bytes, codes, c_str, stoi, print_int, socket_message, snprintf, tokenize}
use bulletin_board.Text.Lines.{IsLine}
use bulletin_board.Text.Tokens.{IsWord}
use bulletin_board.Text.Numbers.{stoi-print_int}
use bulletin_board.LineReader.{Receipt, no_data, failed, received, file, line, readline}
use bulletin_board.LineReader.Files.{readline-IsLine}
use bulletin_board.Lock.{
  unlocked, AccessData, reader_must_wait, writer_must_wait, announce_writer, enter_writer,
}
use bulletin_board.Lock.Threads.{
  System, Reach, start, later, Step, step, Move, read_enter, write_enter, write_wait, read_wait,
  read_leave, outside, reading, writing, writer_asleep, reader_asleep, writer_awake,
}
use bulletin_board.Lock.Safety.{
  IsInside, writer_alone, sleeper_must_wait, sleeper_waits_for, no_reader_enters, CanGoOn,
}
use bulletin_board.Store.{Store, Result, done, hangs, bind, acquire_write_lock, open_read}
use bulletin_board.BoardFile.{
  Undo, no_operation, undo_write, undo_replace, append_message, message_line, wrote,
  write_operation, replace_operation, replace_message, run_undo, are_replace_arguments_valid,
  set_initial_message_number, second_and_third,
}
use bulletin_board.BoardFile.Loops.{count_lines}
use bulletin_board.BoardFile.Reader.{blank_first_slash, read_message_from_file}
use bulletin_board.BoardFile.Lines.{encode, AllFit}
use bulletin_board.BoardFile.State.{IsSmall, Holds, IsFree, entry, access_after}
use bulletin_board.BoardFile.Write.{
  write_operation-Holds, run_undo-write_operation, run_undo_unreadable,
}
use bulletin_board.BoardFile.Rollback.{replaced, run_undo-replace_message, run_undo_drops_tail}
use bulletin_board.BoardFile.Arguments.{
  argument, Accepted, are_replace_arguments_valid_sound, replace_operation-Holds,
}
use bulletin_board.BoardFile.Accepts.{are_replace_arguments_valid_complete}
use bulletin_board.BoardFile.Read.{
  set_initial_message_number-encode, set_initial_message_number-bad, read_message_from_file-Holds,
  read_message_from_file_unknown,
}
use bulletin_board.SyncServer.{Session, new_session, serve, operation_failed, awaiting_decision}
use bulletin_board.SyncServer.Answers.{operation_failed-wrote}
use bulletin_board.SyncServer.Decision.{
  Decides, Verdict, keep, undone, confirmed, timed_out, refused, success_noop, unsuccess_undo,
  serve-Decides, settled,
}
use bulletin_board.SyncServer.Releases.{serve_releases}
use bulletin_board.SyncServer.Flows.{
  precommit_message, commit_message, write_command, IsArgument, written_messages, outcome,
  write_connection,
}

abbrev pub first_line : Bytes
first_line = entry 0 (codes "nobody") (codes "hi")

abbrev pub second_line : Bytes
second_line = entry 1 (codes "ann") (codes "yo")

abbrev pub board_lines : List Bytes
board_lines = first_line ∷ second_line ∷ []

abbrev pub board : Store
board = record {
  content = encode board_lines;
  readable = true;
  writable = true;
  message_number = 2;
  access_data = unlocked;
}

pub board-AllFit : AllFit board_lines
unfolding print_int
board-AllFit = omega arith

pub board-Holds : Holds board board_lines
board-Holds = record {
  encoded = refl;
  fit = board-AllFit;
  counted = refl;
  readable = refl;
  writable = refl;
}

pub board-IsFree : IsFree board.access_data
board-IsFree = (refl, refl)

pub board-IsSmall : IsSmall board
unfolding print_int
board-IsSmall = omega arith

pub bob-IsArgument : IsArgument (codes "bob")
bob-IsArgument = (omega arith, (ground arith, omega arith), omega arith)

pub hello-IsArgument : IsArgument (codes "hello")
hello-IsArgument = (omega arith, (ground arith, omega arith), omega arith)

write_operation-Holds_example :
    (s' : Store) × (write_operation (codes "bob") (codes "hello") false no_operation board
      ≡ done (wrote (pos 2) false, undo_write (pos (length board.content))) s')
    × Holds s' (board_lines ++ (entry 2 (codes "bob") (codes "hello") ∷ []))
    × (s'.access_data ≡ unlocked)
write_operation-Holds_example =
    write_operation-Holds (codes "bob") (codes "hello") false no_operation board board_lines
      board-Holds board-IsFree bob-IsArgument.0 hello-IsArgument.0 (unfold print_int in omega arith)

replace_operation-Holds_example :
    (s' : Store) × (replace_operation
        (codes "bob")
        (argument 1 (codes "hello"))
        true
        no_operation
        board
      ≡ done (wrote (pos 1) true, undo_replace (codes "ann") (pos 1) (codes "yo")) s')
    × Holds s' (first_line ∷ entry 1 (codes "bob") (codes "hello") ∷ [])
    × (s'.access_data ≡ access_after true unlocked)
replace_operation-Holds_example =
    replace_operation-Holds (first_line ∷ []) second_line [] board true no_operation (codes "bob")
      (codes "hello") (codes "ann") (codes "yo") board-Holds board-IsSmall board-IsFree
      (omega arith) bob-IsArgument.0 hello-IsArgument.0 (ground arith, omega arith)
      (unfold print_int in omega arith) (unfold tokenize second_and_third print_int in refl)

run_undo-write_operation_example :
    bind (write_operation (codes "bob") (codes "hello") true no_operation board) (λ r. run_undo r.1)
    ≡ done tt (record board { access_data = access_after true unlocked })
run_undo-write_operation_example =
    run_undo-write_operation (codes "bob") (codes "hello") no_operation board refl refl board-IsFree

abbrev pub unreadable : Store
unreadable = record board { readable = false }

run_undo-replace_message_example :
    bind (replace_message (codes "bob") (pos 1) (codes "hello") board) run_undo ≡ done tt board
run_undo-replace_message_example =
    run_undo-replace_message (first_line ∷ []) [] board (codes "bob") (codes "hello") (codes "ann")
      (codes "yo") bob-IsArgument.0 hello-IsArgument.0 (omega arith)
      (unfold print_int in omega arith) (ground arith, omega arith) (ground arith, omega arith)
      (omega arith) board-IsSmall board-Holds

-- A message that holds a '/', as WRITE stores it.
abbrev pub slashed : Store
slashed = record board {
  content = encode (entry 0 (codes "ann") (codes "1/2") ∷ []);
  message_number = 1;
}

slashed-Holds : Holds slashed (entry 0 (codes "ann") (codes "1/2") ∷ [])
slashed-Holds = record {
  encoded = refl;
  fit = unfold print_int in omega arith;
  counted = refl;
  readable = refl;
  writable = refl;
}

run_undo_drops_tail_example :
    bind (replace_message (codes "bob") (pos 0) (codes "hello") slashed) run_undo
    ≡ done tt (record slashed { content = encode (entry 0 (codes "ann") (codes "1") ∷ []) })
run_undo_drops_tail_example =
    run_undo_drops_tail [] [] slashed (codes "bob") (codes "hello") (codes "ann") (codes "1")
      bob-IsArgument.0 hello-IsArgument.0 (omega arith) (unfold print_int in omega arith)
      (ground arith, omega arith) (ground arith, omega arith) (codes "2") (omega arith)
      (omega arith) (unfold print_int in omega arith) slashed-Holds

read_message_from_file-Holds_example :
    read_message_from_file (pos 1) [] board
    ≡ done (socket_message 20 (codes "MESSAGE") (c_str (blank_first_slash second_line))) board
read_message_from_file-Holds_example =
    read_message_from_file-Holds (first_line ∷ []) second_line [] board [] board-Holds
      (unfold reader_must_wait in refl)
