-- ===== src/BoardServer/Loop.antt =====
-- board-server.cpp: the loop of handle_bulletin_board_client over the requests of one client.
use bulletin_board.Base.{ℕ, zero, suc, ◌+◌, List, [], ◌∷◌, ◌++◌, ◌==◌, if◌then◌else◌, length}
use bulletin_board.Text.{Bytes, codes, c_str, socket_message}
use bulletin_board.LineReader.{
  Arrival, byte, pause, fault, Descriptor, socket, Outcome, broken, exhausted, line, is_terminator,
  readline_from_socket,
}
use bulletin_board.Store.{M, pure, hang, ◌>>=◌}
use bulletin_board.BoardServer.{Reply, goes_on, says_bye, handle_command}

-- `ALEN - 1`
abbrev pub request_max : ℕ
request_max = 255

-- `bulletinBoardGreetingText`
abbrev pub greeting_text : Bytes
greeting_text =
    codes
      "Welcome to the Bulletin Board\n1.USER username\n2.READ msg_number\n3.WRITE text\n4.REPLACE msg_num/message\n5.QUIT exit_msg"

-- Bytes stored from the start of a buffer.
unfoldable pub store_bytes : Bytes → Bytes → Bytes
store_bytes [] memory = memory
store_bytes xs [] = []
store_bytes (x ∷ xs) (m ∷ memory) = x ∷ store_bytes xs memory

-- The bytes that a call has stored when read() fails, `rounds` being `max - i`.
unfoldable pub stored_before_fault : ℕ → List Arrival → Bytes
unfolding is_terminator
stored_before_fault rounds [] = []
stored_before_fault rounds (pause ∷ r) = stored_before_fault rounds r
stored_before_fault rounds (fault ∷ r) = []
stored_before_fault zero (byte c ∷ r) = []
stored_before_fault (suc rounds) (byte c ∷ r) =
    let more = stored_before_fault rounds r in if is_terminator c then [] else c ∷ more

-- What `req` holds after a call: the line with its NUL, or else the bytes of a failed call over what
-- was there.
unfoldable pub request_after : Outcome → ℕ → List Arrival → Bytes → Bytes
unfolding store_bytes stored_before_fault
request_after exhausted residue r memory = memory
request_after (line text) residue r memory = store_bytes (text ++ (0 ∷ [])) memory
request_after broken residue r memory =
    if residue == 0
    then store_bytes (stored_before_fault request_max r) memory
    else store_bytes (residue ∷ stored_before_fault 254 r) memory

-- What goes in and out of a turn of the loop: the socket, the residue, the buffer, the user's name.
pub record Client : Type 0 where
  pub arrivals : List Arrival
  pub residue : ℕ
  pub memory : Bytes
  pub user : Bytes

abbrev pub arrivals_of : Descriptor → List Arrival
arrivals_of (socket r) = r
arrivals_of _ = []

-- A call of readlineFromSocket: how it ends, and what it leaves.
unfoldable pub receive_request : Client → Outcome × Client
unfolding readline_from_socket request_after
receive_request c =
    let r = readline_from_socket (socket c.arrivals) request_max c.residue in
    (
      r.outcome,
      record c {
        arrivals = arrivals_of r.rest;
        residue = r.residue;
        memory = request_after r.outcome c.residue c.arrivals c.memory;
      },
    )

-- "BYE"
unfoldable pub bye : Bytes
unfolding socket_message
bye = socket_message 40 (codes "BYE") (codes "This is Goodbye.")

-- What follows a command: the next turn, or the end of the loop.
unfoldable pub follow_reply : (Bytes → M (List Bytes)) → Reply → M (List Bytes)
unfolding bye
follow_reply next (goes_on user sent) = next user >>= λ more. pure (sent ++ more)
follow_reply next says_bye = pure (bye ∷ [])

-- The body of the loop, behind its test. A failed read is no end of it: the buffer is taken as it is.
unfoldable pub take_turn :
    (Bytes → Bytes → M Bytes)
    → ℕ
    → Bytes
    → (Client → M (List Bytes))
    → Outcome × Client
    → M (List Bytes)
unfolding c_str handle_command follow_reply bye
take_turn synchronize peers stale next (exhausted, c) = pure (bye ∷ [])
take_turn synchronize peers stale next (_, c) =
    handle_command synchronize peers c.user stale (c_str c.memory)
    >>= follow_reply (λ user. next (record c { user = user }))

-- The loop, with what the server sends; `stale k` is what the buffer of readMessageFromFile holds in
-- the turn k.
unfoldable pub converse :
    (Bytes → Bytes → M Bytes) → ℕ → (ℕ → Bytes) → ℕ → ℕ → Client → M (List Bytes)
unfolding receive_request take_turn
converse synchronize peers stale zero turn c = hang
converse synchronize peers stale (suc fuel) turn c =
    take_turn synchronize peers (stale turn) (converse synchronize peers stale fuel (turn + 1))
      (receive_request c)

-- A connection, from the greeting to the end; `memory` is what `req` holds before it is written to.
unfoldable pub serve_client :
    (Bytes → Bytes → M Bytes) → ℕ → (ℕ → Bytes) → Bytes → List Arrival → M (List Bytes)
unfolding converse socket_message
serve_client synchronize peers stale memory arrivals = do
  answers ←
      converse synchronize peers stale (suc (length arrivals)) 0
        (record { arrivals = arrivals; residue = 0; memory = memory; user = codes "nobody" })
  pure (socket_message 0 [] greeting_text ∷ answers)
