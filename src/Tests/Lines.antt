-- ===== src/Tests/Lines.antt =====
-- Lines of a file and commands of a socket, at concrete bytes.
use bulletin_board.Base.{
  ℕ, zero, suc, ◌≤◌, ◌≡◌, refl, true, false, [], ◌∷◌, ◌++◌, List, arith, take, length, replicate,
}
use bulletin_board.Base.Counting.{total}
use bulletin_board.Text.{print_int, Bytes, codes, socket_message}
use bulletin_board.Text.Lines.{IsLine}
use bulletin_board.LineReader.{byte, socket, readline_from_socket, is_terminator}
use bulletin_board.LineReader.Sockets.{Utterance, wire, AllSaid}
use bulletin_board.LineReader.Bounds.{readline_from_socket_bound}
use bulletin_board.Store.{Store, done, pure, hang, ◌>>=◌}
use bulletin_board.BoardFile.{
  no_operation, undo_write, file_size, wrote, write_operation, set_initial_message_number,
}
use bulletin_board.BoardFile.State.{entry}
use bulletin_board.BoardFile.Cut.{write_operation_glued}
use bulletin_board.Base.Int.{pos}
use bulletin_board.BoardFile.Lines.{encode}
use bulletin_board.BoardFile.Counts.{AllLines, chunks, set_initial_message_number-chunks}
use bulletin_board.BoardServer.Loop.{request_max, greeting_text, serve_client}
use bulletin_board.BoardServer.Connections.{obey, serve_client-obey}
use bulletin_board.Tests.{
  board, board_lines, board-Holds, board-IsFree, bob-IsArgument, hello-IsArgument,
}

readline_from_socket_bound_example : length (codes "Q") ≤ 1
readline_from_socket_bound_example =
    readline_from_socket_bound (socket (byte b'Q' ∷ byte b'U' ∷ [])) 1 0 (codes "Q") (omega arith)
      (unfold readline_from_socket in refl)

abbrev long_line : Bytes
long_line = replicate 300 b'x'

replicate-IsLine : (n : ℕ) → IsLine (replicate n b'x')
replicate-IsLine zero = tt
replicate-IsLine (suc n) = (omega arith, replicate-IsLine n)

long_line-AllLines : AllLines (codes "0/a/b" ∷ long_line ∷ [])
long_line-AllLines = (omega arith, (replicate-IsLine 300, tt))

abbrev long_board : Store
long_board = record board { content = encode (codes "0/a/b" ∷ long_line ∷ []) }

set_initial_message_number-chunks_example :
    set_initial_message_number long_board
    ≡ done tt (record long_board { message_number = total chunks (codes "0/a/b" ∷ long_line ∷ []) })
set_initial_message_number-chunks_example =
    set_initial_message_number-chunks long_board (codes "0/a/b" ∷ long_line ∷ []) refl refl
      long_line-AllLines

three : total chunks (codes "0/a/b" ∷ long_line ∷ []) ≡ 3
unfolding total
three = refl

-- Two commands at once, with "\r\n" between them, and one behind a pause.
abbrev said : List Utterance
said =
    record {
      command = codes "USER ann";
      terminator = b'\r';
      more_terminators = b'\n' ∷ [];
      pauses = false;
    }
    ∷ record { command = codes "READ 1"; terminator = b'\n'; more_terminators = []; pauses = true }
    ∷ record {
      command = codes "QUIT bye";
      terminator = b'\n';
      more_terminators = [];
      pauses = false;
    }
    ∷ []

said-AllSaid : AllSaid request_max said
unfolding is_terminator
said-AllSaid = (
  record {
    is_line = omega arith;
    nonempty = ground arith;
    fits = omega arith;
    ends = refl;
    goes_on = (refl, tt);
  },
  (
    record {
      is_line = omega arith;
      nonempty = ground arith;
      fits = omega arith;
      ends = refl;
      goes_on = tt;
    },
    (
      record {
        is_line = omega arith;
        nonempty = ground arith;
        fits = omega arith;
        ends = refl;
        goes_on = tt;
      },
      tt,
    ),
  ),
)

abbrev memory : Bytes
memory = replicate 256 b'?'

serve_client-obey_example :
    serve_client (λ user request. hang) 0 (λ k. []) memory (wire said) board
    ≡ (obey
            (λ user request. hang)
            0
            (λ k. [])
            0
            (codes "nobody")
            (codes "USER ann" ∷ codes "READ 1" ∷ codes "QUIT bye" ∷ [])
          >>= λ answers. pure (socket_message 0 [] greeting_text ∷ answers))
        board
serve_client-obey_example =
    serve_client-obey (λ user request. hang) 0 (λ k. []) said memory board said-AllSaid refl

-- A name of 240 bytes and a message of 20 are cut.
write_operation_glued_example :
    (t : Store) × (t' : Store) × (write_operation
        (replicate 240 b'x')
        (replicate 20 b'x')
        false
        no_operation
        board
      ≡ done (wrote (pos 2) false, undo_write (file_size board)) t)
    × (write_operation (codes "bob") (codes "hello") false no_operation t
        ≡ done (wrote (pos 3) false, undo_write (file_size t)) t')
    × (t'.content
        ≡ encode (
            board_lines
            ++ ((take 254 (entry 2 (replicate 240 b'x') (replicate 20 b'x'))
                  ++ entry 3 (codes "bob") (codes "hello"))
                ∷ [])))
    × (t'.message_number ≡ 4)
write_operation_glued_example =
    write_operation_glued (replicate 240 b'x') (replicate 20 b'x') (codes "bob") (codes "hello")
      no_operation no_operation board board_lines board-Holds board-IsFree (replicate-IsLine 240)
      (replicate-IsLine 20) bob-IsArgument.0 hello-IsArgument.0 (omega (arith, long))
      (unfold print_int in omega arith)
  where
    long : length (entry 2 (replicate 240 b'x') (replicate 20 b'x')) ≡ 263
    long = unfold print_int in refl
