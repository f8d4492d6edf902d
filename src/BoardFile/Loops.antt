-- ===== src/BoardFile/Loops.antt =====
-- The loops of file-operations.cpp that read the file line by line, each with fuel.
use bulletin_board.Base.{
  ℕ, zero, suc, ◌+◌, Bool, true, false, Option, none, some, ltb, ◌==◌, if◌then◌else◌, length,
}
use bulletin_board.Base.Int.{ℤ, pos, negsuc, int_max}
use bulletin_board.Text.{Bytes}
use bulletin_board.LineReader.{Descriptor, broken, exhausted, line, Outcome, readline}

-- `ALEN - 1`
abbrev pub line_max : ℕ
line_max = 255

-- Enough fuel for a loop over a file of this content.
abbrev pub rounds_for : Bytes → ℕ
rounds_for content = suc (suc (length content))

-- `while (readline(...) != recv_nodata) l++` of set_initial_message_number
unfoldable pub count_lines : ℕ → Descriptor → ℕ → Option ℕ
count_lines zero d l = none
count_lines (suc fuel) d l =
    let r = readline d line_max in
    elim r.outcome [
      | exhausted ↦ some l
      | broken ↦ count_lines fuel r.rest (l + 1)
      | line text ↦ count_lines fuel r.rest (l + 1)
    ]

-- `l == messageNumber`, and `l < messageNumber`
abbrev pub is_at : ℕ → ℤ → Bool
is_at l (pos n) = l == n
is_at l (negsuc n) = false

abbrev pub is_below : ℕ → ℤ → Bool
is_below l (pos n) = ltb l n
is_below l (negsuc n) = false

-- How a search for a line ends: with what it found, at the end of the file, or not at all.
pub data Search (A : Type 0) : Type 0 where
  found : A → Search A
  missing : A → Search A
  endless : Search A

-- What a call leaves in the buffer.
abbrev pub buffer_after : Outcome → Bytes → Bytes
buffer_after (line text) buffer = text
buffer_after _ buffer = buffer

-- The loops of readMessageFromFile and getMessageNumberInfo: the buffer at the wanted line, or as
-- the last call has left it at the end of the file.
unfoldable pub seek_line : ℕ → Descriptor → ℕ → ℤ → Bytes → Search Bytes
seek_line zero d k wanted buffer = endless
seek_line (suc fuel) d k wanted buffer =
    let r = readline d line_max in
    elim r.outcome [
      | exhausted ↦ missing buffer
      | outcome ↦ elim (is_at k wanted) [
        | true ↦ found (buffer_after outcome buffer)
        | false ↦ seek_line fuel r.rest (k + 1) wanted (buffer_after outcome buffer)
      ]
    ]

-- `n + 1` for the result `n` of readline, where a failed call returns -1
abbrev pub length_with_newline : Outcome → ℕ
length_with_newline (line text) = length text + 1
length_with_newline _ = 0

-- The bytes before the line, with those of one more line that stands before it.
abbrev pub bytes_before : ℕ → ℤ → Outcome → ℕ → ℕ
bytes_before l wanted outcome before =
    if is_below l wanted then before + length_with_newline outcome else before

-- obtainLengthOfLineToBeReplaced: the line's length and the bytes before it. They are counted in an
-- `int`; an overflow is undefined, and like a failed assert `missing`.
unfoldable pub measure_line : ℕ → Descriptor → ℕ → ℤ → ℕ → Search (ℕ × ℕ)
measure_line zero d l wanted before = endless
measure_line (suc fuel) d l wanted before =
    let r = readline d line_max in
    elim r.outcome [
      | exhausted ↦ missing (0, before)
      | outcome ↦ elim (is_at l wanted) [
        | true ↦ found (length_with_newline outcome, before)
        | false ↦
            (let rest =
                measure_line fuel r.rest (l + 1) wanted (bytes_before l wanted outcome before) in
              if ltb int_max (bytes_before l wanted outcome before)
              then missing (0, before)
              else rest)
      ]
    ]
