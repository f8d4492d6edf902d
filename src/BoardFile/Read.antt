-- ===== src/BoardFile/Read.antt =====
-- READ, and the count at the start.
use bulletin_board.Base.{
  ℕ, zero, suc, ◌+◌, ◌≤◌, ◌≡◌, refl, ap, ◌∙◌, true, false, none, some, List, ◌∷◌, ◌++◌, arith,
  length, length-append,
}
use bulletin_board.Base.Int.{pos}
use bulletin_board.Text.{Bytes, codes, c_str, print_int, snprintf, socket_message}
use bulletin_board.LineReader.{file, bad, readline}
use bulletin_board.Lock.{reader_must_wait}
use bulletin_board.Store.{Store, done, hangs, open_read}
use bulletin_board.BoardFile.{set_initial_message_number, is_unknown}
use bulletin_board.BoardFile.Reader.{blank_first_slash, read_locked, read_message_from_file}
use bulletin_board.BoardFile.Loops.{count_lines, rounds_for}
use bulletin_board.BoardFile.Lines.{encode, AllFit, length-le-encode, count_lines-encode}
use bulletin_board.BoardFile.State.{Holds}
use bulletin_board.BoardFile.Replace.{sought}

-- On a readable file of lines that each fit, the count at the start ends, and counts them.
pub set_initial_message_number-encode :
    (s : Store) (ls : List Bytes)
    → s.readable ≡ true
    → s.content ≡ encode ls
    → AllFit ls
    → set_initial_message_number s ≡ done tt (record s { message_number = length ls })
unfolding set_initial_message_number
set_initial_message_number-encode s ls r e h =
    let opened : open_read s ≡ file (encode ls) = ground (arith, e, r) in
    let counted : count_lines (rounds_for s.content) (open_read s) 0 ≡ some (length ls) =
      ap (λ d. count_lines (rounds_for s.content) d 0) opened
      ∙ count_lines-encode ls (rounds_for s.content) 0 h
          (let bytes = ap length e in omega (arith, bytes, length-le-encode ls))
      ∙ ap some (omega arith) in
    ground (arith, counted)

-- With no number of rounds does the loop over a descriptor that could not be opened come to an end.
count_lines-bad : (fuel n : ℕ) → count_lines fuel bad n ≡ none
unfolding count_lines readline
count_lines-bad zero n = refl
count_lines-bad (suc fuel) n = count_lines-bad fuel (n + 1)

-- Where the file cannot be opened for reading, the count at the start never ends: no number of
-- rounds of its loop is enough, since a failed read is not the end of the file for it.
pub set_initial_message_number-bad :
    (s : Store)
    → s.readable ≡ false
    → (set_initial_message_number s ≡ hangs)
      × ((fuel : ℕ) → count_lines fuel (open_read s) 0 ≡ none)
unfolding set_initial_message_number
set_initial_message_number-bad s r =
    let opened : open_read s ≡ bad = ground (arith, r) in
    let endless : (fuel : ℕ) → count_lines fuel (open_read s) 0 ≡ none =
      λ fuel. ap (λ d. count_lines fuel d 0) opened ∙ count_lines-bad fuel 0 in
    (ground (arith, endless (rounds_for s.content)), endless)

module _ (xs : List Bytes) (l : Bytes) (ys : List Bytes) (s : Store) (stale : Bytes) where
  -- READ of a number on the board, while no writer holds the lock or waits for it, answers with
  -- the line of that number, its first '/' made a space, behind the head of a MESSAGE, the whole
  -- cut to 254 bytes by socket_message; whatever the buffer held before, and leaves the board and
  -- the lock as they were.
  pub read_message_from_file-Holds :
      Holds s (xs ++ (l ∷ ys))
      → reader_must_wait s.access_data ≡ false
      → read_message_from_file (pos (length xs)) stale s
        ≡ done (socket_message 20 (codes "MESSAGE") (c_str (blank_first_slash l))) s
  unfolding read_message_from_file read_locked
  read_message_from_file-Holds h free =
      let known : is_unknown (pos (length xs)) s.message_number ≡ false =
        unfold is_unknown in ground (arith, h.counted, length-append xs (l ∷ ys)) in
      ground (arith, known, h.readable, sought xs l ys s h stale)

-- READ of a number that no message has changes nothing, waits for no lock, and answers UNKNOWN.
pub read_message_from_file_unknown :
    (n : ℕ) (s : Store) (stale : Bytes)
    → s.message_number ≤ n
    → read_message_from_file (pos n) stale s
      ≡ done
          (socket_message 21 (codes "UNKNOWN") (
            snprintf 255
              (print_int (pos n) ++ (b' ' ∷ codes "The given message-number does not exist."))))
          s
unfolding read_message_from_file is_unknown
read_message_from_file_unknown n s stale h = ground arith
