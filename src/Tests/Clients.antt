-- ===== src/Tests/Clients.antt =====
-- A client of a server with no peers.
use bulletin_board.Base.{◌≡◌, refl, [], ◌∷◌, ◌++◌, arith, false}
use bulletin_board.Base.Int.{pos}
use bulletin_board.Text.{codes, c_str, print_int, socket_message}
use bulletin_board.Lock.{reader_must_wait}
use bulletin_board.Store.{Store, done, hang}
use bulletin_board.BoardFile.{wrote}
use bulletin_board.BoardFile.Reader.{blank_first_slash}
use bulletin_board.BoardFile.State.{Holds, entry}
use bulletin_board.BoardServer.{goes_on, handle_command}
use bulletin_board.BoardServer.Sessions.{read_after_write, write_request, read_request}
use bulletin_board.Tests.{
  board, board_lines, board-Holds, board-IsFree, bob-IsArgument, hello-IsArgument,
}

read_after_write_example :
    (s' : Store) × (handle_command
        (λ user request. hang)
        0
        (codes "bob")
        []
        (write_request (codes "hello"))
        board
      ≡ done (goes_on (codes "bob") (wrote (pos 2) false ∷ [])) s')
    × Holds s' (board_lines ++ (entry 2 (codes "bob") (codes "hello") ∷ []))
    × (handle_command (λ user request. hang) 0 (codes "bob") [] (read_request 2) s'
        ≡ done
            (goes_on (codes "bob") (
              socket_message 20
                (codes "MESSAGE")
                (c_str (blank_first_slash (entry 2 (codes "bob") (codes "hello"))))
              ∷ []))
            s')
read_after_write_example =
    read_after_write (λ user request. hang) (codes "bob") [] (codes "hello") board board_lines
      board-Holds board-IsFree (unfold reader_must_wait in refl) bob-IsArgument.0 hello-IsArgument.0
      hello-IsArgument.1 (unfold print_int in omega arith) (omega arith)
