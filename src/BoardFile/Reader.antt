-- ===== src/BoardFile/Reader.antt =====
-- file-operations.cpp, readMessageFromFile.
use bulletin_board.Base.{true, false, not, Option, none, some, [], ◌∷◌, ◌++◌, ◌==◌, if◌then◌else◌}
use bulletin_board.Base.Int.{ℤ}
use bulletin_board.Text.{Bytes, codes, c_str, print_int, snprintf, socket_message}
use bulletin_board.Lock.{reader_must_wait, enter_reader, leave_reader}
use bulletin_board.Store.{done, hangs, M, open_read}
use bulletin_board.BoardFile.{is_unknown}
use bulletin_board.BoardFile.Loops.{Search, found, missing, endless, seek_line, rounds_for}

-- The first '/' of the C string in the buffer becomes a space.
unfoldable pub blank_first_slash : Bytes → Bytes
blank_first_slash [] = []
blank_first_slash (c ∷ s) = elim (c == 0) [
  | true ↦ c ∷ s
  | false ↦ elim (c == b'/') [ true ↦ b' ' ∷ s | false ↦ c ∷ blank_first_slash s ]
]

abbrev pub buffer_found : Search Bytes → Option Bytes
buffer_found (found buffer) = some buffer
buffer_found (missing buffer) = some buffer
buffer_found endless = none

-- The read itself and the answer, with the reader counted in and out.
unfoldable pub read_locked : ℤ → Bytes → M Bytes
unfolding enter_reader leave_reader seek_line blank_first_slash socket_message c_str
read_locked number stale s =
    let entered = enter_reader s.access_data in
    elim (buffer_found (seek_line (rounds_for s.content) (open_read s) 0 number stale)) [
      | none ↦ hangs
      | some buffer ↦
          done (socket_message 20 (codes "MESSAGE") (c_str (blank_first_slash buffer)))
            (record s { access_data = leave_reader entered })
    ]

-- `readMessageFromFile`: the message sent. `stale` is what its buffer holds before the first read.
unfoldable pub read_message_from_file : ℤ → Bytes → M Bytes
unfolding is_unknown reader_must_wait read_locked socket_message snprintf print_int
read_message_from_file number stale s =
    if is_unknown number s.message_number
    then done
        (socket_message 21 (codes "UNKNOWN") (
          snprintf 255
            (print_int number ++ (b' ' ∷ codes "The given message-number does not exist."))))
        s
    else if not s.readable
    then done (socket_message 22 (codes "ERROR READ") (codes "bbfile currently unavailable")) s
    else if reader_must_wait s.access_data
    then hangs
    else read_locked number stale s
