-- ===== src/BoardServer/Sessions.antt =====
-- What a client of a server with no peers writes, it reads back.
use bulletin_board.Base.{
  ℕ, ◌≤◌, ◌<◌, ◌≡◌, ap, ◌∙◌, true, false, List, [], ◌∷◌, ◌++◌, arith, inl, length,
}
use bulletin_board.Base.Int.{pos}
use bulletin_board.Text.{Bytes, codes, c_str, print_int, socket_message, is_number}
use bulletin_board.Text.Lines.{IsLine, IsLine-append, IsLine-HasNoNul, print_int-IsLine}
use bulletin_board.Text.Tokens.{IsWord, tokenize_two, print_int-IsWord}
use bulletin_board.Text.Numbers.{stoi-print_int, is_number-to_string}
use bulletin_board.Lock.{reader_must_wait}
use bulletin_board.Store.{Store, done, M}
use bulletin_board.BoardFile.{no_operation, undo_write, wrote, write_operation}
use bulletin_board.BoardFile.Reader.{blank_first_slash, read_message_from_file}
use bulletin_board.BoardFile.State.{Holds, IsFree, entry}
use bulletin_board.BoardFile.Write.{write_operation-Holds}
use bulletin_board.BoardFile.Read.{read_message_from_file-Holds}
use bulletin_board.BoardServer.{
  goes_on, handle_command, dispatch_command, change_command, operate, read_command, read_number,
}

abbrev pub write_request : Bytes → Bytes
write_request text = codes "WRITE" ++ (b' ' ∷ text)

abbrev pub read_request : ℕ → Bytes
read_request n = codes "READ" ++ (b' ' ∷ print_int (pos n))

module _ (synchronize : Bytes → Bytes → M Bytes) (user stale : Bytes) where
  handle_write :
      (text : Bytes) (s s' : Store)
      → IsLine text
      → IsWord b' ' text
      → write_operation user text false no_operation s
        ≡ done (wrote (pos s.message_number) false, undo_write (pos (length s.content))) s'
      → handle_command synchronize 0 user stale (write_request text) s
        ≡ done (goes_on user (wrote (pos s.message_number) false ∷ [])) s'
  unfolding handle_command dispatch_command change_command operate
  handle_write text s s' l w e =
      ap (λ t. dispatch_command synchronize 0 user stale (write_request text) t s)
        (tokenize_two b' ' (codes "WRITE") text
          (IsLine-HasNoNul (write_request text)
            (IsLine-append (codes "WRITE ") text (omega arith) l))
          (ground arith, omega arith) w)
      ∙ ground (arith, e)

  handle_read :
      (n : ℕ) (s : Store) (answer : Bytes)
      → n ≤ 2147483647
      → read_message_from_file (pos n) stale s ≡ done answer s
      → handle_command synchronize 0 user stale (read_request n) s
        ≡ done (goes_on user (answer ∷ [])) s
  unfolding handle_command dispatch_command read_command read_number
  handle_read n s answer small e =
      ap (λ t. dispatch_command synchronize 0 user stale (read_request n) t s)
        (tokenize_two b' ' (codes "READ") (print_int (pos n))
          (IsLine-HasNoNul (read_request n) (
            IsLine-append (codes "READ ") (print_int (pos n)) (omega arith)
              (print_int-IsLine (pos n))))
          (ground arith, omega arith) (print_int-IsWord b' ' n (inl (omega arith))))
      ∙ (let number : is_number (print_int (pos n)) ≡ true =
            unfold print_int in is_number-to_string n in
          ground (arith, number, stoi-print_int n small, e))

  -- On a board that holds `ls`, of a server with no peers and with the lock free, WRITE of a word
  -- whose line takes less than 254 bytes is answered with the next number, and READ of that
  -- number is then answered with the line of that user and word behind the head of a MESSAGE, the
  -- whole cut to 254 bytes by socket_message: a line of 243 bytes or more comes back cut.
  pub read_after_write :
      (text : Bytes) (s : Store) (ls : List Bytes)
      → Holds s ls
      → IsFree s.access_data
      → reader_must_wait s.access_data ≡ false
      → IsLine user
      → IsLine text
      → IsWord b' ' text
      → length (entry s.message_number user text) < 254
      → s.message_number ≤ 2147483647
      → (s' : Store) × (handle_command synchronize 0 user stale (write_request text) s
          ≡ done (goes_on user (wrote (pos s.message_number) false ∷ [])) s')
        × Holds s' (ls ++ (entry s.message_number user text ∷ []))
        × (handle_command synchronize 0 user stale (read_request s.message_number) s'
            ≡ done
                (goes_on user (
                  socket_message 20
                    (codes "MESSAGE")
                    (c_str (blank_first_slash (entry s.message_number user text)))
                  ∷ []))
                s')
  read_after_write text s ls h free open' u l w lt small =
      let (s', e, h', lock) =
        write_operation-Holds user text false no_operation s ls h free u l lt in
      let answer : Bytes =
        socket_message 20 (codes "MESSAGE")
          (c_str (blank_first_slash (entry s.message_number user text))) in
      let read : read_message_from_file (pos s.message_number) stale s' ≡ done answer s' =
        ap (λ n. read_message_from_file (pos n) stale s') h.counted
        ∙ read_message_from_file-Holds ls (entry s.message_number user text) [] s' stale h'
            (ap reader_must_wait lock ∙ open') in
      (s', handle_write text s s' l w e, h', handle_read s.message_number s' answer small read)
