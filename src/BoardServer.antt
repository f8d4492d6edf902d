-- ===== src/BoardServer.antt =====
-- board-server.cpp: what a command of a client does, in handle_bulletin_board_client.
pub mod Sessions
pub mod Loop
pub mod Connections
pub mod Rounds
use bulletin_board.Base.{
  ℕ, ◌≡◌, Bool, true, false, not, ◌||◌, ◌==◌, Option, none, some, List, [], ◌∷◌, ◌++◌,
  if◌then◌else◌,
}
use bulletin_board.Base.Int.{ℤ}
use bulletin_board.Text.{
  Bytes, codes, tokenize, str_eq, contains, trim, is_number, stoi, socket_message,
  join_two_strings_with_delimiter,
}
use bulletin_board.Store.{Store, Result, done, M, pure, crash, ◌>>=◌}
use bulletin_board.Text.{is_empty}
use bulletin_board.BoardFile.{
  no_operation, write_operation, replace_operation, are_replace_arguments_valid,
}
use bulletin_board.BoardFile.Reader.{read_message_from_file}

-- What a command leaves: the loop goes on with this user, or is left.
pub data Reply : Type 0 where
  goes_on : (user : Bytes) (sent : List Bytes) → Reply
  says_bye : Reply

-- USER
unfoldable pub set_user : Bytes → Bytes → Reply
unfolding contains trim socket_message
set_user user name =
    if contains b'/' name || is_empty (trim name)
    then goes_on user (
        socket_message 12 (codes "ERROR USER")
          (codes "The 'username' argument must be non-empty & cannot contain '/'")
        ∷ [])
    else goes_on name (socket_message 10 (codes "HELLO") name ∷ [])

-- `readMessageFromFile(stoi(tokens[1]), slave_socket)`: an exception of stoi is not caught.
unfoldable pub read_number : Bytes → Bytes → Option ℤ → M Reply
read_number user stale none = crash
read_number user stale (some n) = do
  answer ← read_message_from_file n stale
  pure (goes_on user (answer ∷ []))

-- READ; `stale` is what the buffer of readMessageFromFile holds.
unfoldable pub read_command : Bytes → Bytes → Bytes → M Reply
unfolding is_number stoi socket_message
read_command user stale number =
    if not (is_number number)
    then pure (
        goes_on user (
          socket_message 22 (codes "ERROR READ")
            (codes "Unable to parse given argument into a valid messageNumber")
          ∷ []))
    else read_number user stale (stoi number)

-- What is sent of the transaction's completion message, which is empty where it was aborted or undone.
unfoldable pub completion_answer : Bytes → Bytes → Bytes
unfolding socket_message join_two_strings_with_delimiter
completion_answer name response =
    if is_empty response
    then socket_message 32 (join_two_strings_with_delimiter (codes "ERROR") name b' ')
        (codes "Syncronization Failed")
    else response

-- The operation itself: here with no peers, and otherwise by `synchronize`, the threads of the
-- transaction, which are given the user and the request.
unfoldable pub operate : (Bytes → Bytes → M Bytes) → ℕ → Bytes → Bytes → Bytes → Bytes → M Reply
unfolding str_eq
operate synchronize peers user request name argument =
    if peers == 0
    then (do
      answer ←
          if str_eq name (codes "WRITE")
          then write_operation user argument false no_operation
          else replace_operation user argument false no_operation
      pure (goes_on user (answer.0 ∷ [])))
    else (do
      response ← synchronize user request
      pure (goes_on user (completion_answer name response ∷ [])))

-- WRITE and REPLACE, the arguments of the latter being checked first.
unfoldable pub change_command :
    (Bytes → Bytes → M Bytes) → ℕ → Bytes → Bytes → Bytes → Bytes → M Reply
unfolding str_eq
change_command synchronize peers user request name argument =
    if str_eq name (codes "REPLACE")
    then (do
      valid ← are_replace_arguments_valid argument
      if not valid.0
          then pure (goes_on user (valid.1 ∷ []))
          else operate synchronize peers user request name argument)
    else operate synchronize peers user request name argument

-- The chain of tests on `tokens[0]`.
unfoldable pub dispatch_command :
    (Bytes → Bytes → M Bytes) → ℕ → Bytes → Bytes → Bytes → List Bytes → M Reply
unfolding str_eq socket_message set_user
dispatch_command synchronize peers user stale request (name ∷ argument ∷ []) =
    if str_eq name (codes "QUIT")
    then pure says_bye
    else if str_eq name (codes "USER")
    then pure (set_user user argument)
    else if str_eq name (codes "READ")
    then read_command user stale argument
    else if str_eq name (codes "WRITE") || str_eq name (codes "REPLACE")
    then change_command synchronize peers user request name argument
    else pure
        (goes_on user (socket_message 0 (codes "ERROR") (codes "Invalid Command Entered!") ∷ []))
dispatch_command synchronize peers user stale request _ = pure (
    goes_on user (
      socket_message 0 (codes "ERROR")
        (codes "A Valid command must contain 2 tokens separated by ' '!. To Exit, type: QUIT bye")
      ∷ []))

-- One turn of the loop, on the request in the buffer.
unfoldable pub handle_command : (Bytes → Bytes → M Bytes) → ℕ → Bytes → Bytes → Bytes → M Reply
handle_command synchronize peers user stale request =
    dispatch_command synchronize peers user stale request (tokenize request b' ')
