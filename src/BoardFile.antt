-- ===== src/BoardFile.antt =====
-- file-operations.cpp: counting, reading, writing and replacing messages in the board's file.
pub mod Loops
pub mod Lines
pub mod State
pub mod Write
pub mod Replace
pub mod Rollback
pub mod Arguments
pub mod Accepts
pub mod Reader
pub mod Read
pub mod Counts
pub mod Cut
pub mod LockData
use bulletin_board.Base.{
  ℕ, zero, suc, ◌+◌, ◌-◌, ◌≡◌, refl, Bool, true, false, not, ◌&&◌, ◌||◌, Option, none, some, List,
  [], ◌∷◌, ◌++◌, ltb, leb, ◌==◌, if◌then◌else◌, length, get_elem?,
}
use bulletin_board.Base.Int.{ℤ, pos, negsuc, int_max}
use bulletin_board.Text.{
  Bytes, codes, c_str, tokenize, count, is_number, stoi, print_int, snprintf, create_message,
  socket_message,
}
use bulletin_board.Text.Decimal.{to_string}
use bulletin_board.LineReader.{Descriptor, file, bad, broken, exhausted, line, ReadLine, readline}
use bulletin_board.Lock.{reader_must_wait, enter_reader, leave_reader}
use bulletin_board.Disk.{truncate, write_at}
use bulletin_board.Splice.{replace_in_place}
use bulletin_board.Store.{
  Store, Result, done, hangs, crashes, M, pure, hang, crash, bind, ◌>>=◌, ◌>>◌, get, modify,
  open_read, acquire_write_lock, release_write_lock,
}
use bulletin_board.BoardFile.Loops.{
  Search, found, missing, endless, count_lines, seek_line, measure_line, rounds_for,
}

-- `set_initial_message_number`; the file exists once open() with O_CREAT has returned.
unfoldable pub set_initial_message_number : M (Unit {0})
set_initial_message_number s = elim (count_lines (rounds_for s.content) (open_read s) 0) [
  | none ↦ hangs
  | some l ↦ done tt (record s { message_number = l })
]

-- "%d/%s/%s\n"
unfoldable pub format_line : ℤ → Bytes → Bytes → Bytes
unfolding c_str print_int
format_line number user message =
    print_int number ++ (b'/' ∷ (c_str user ++ (b'/' ∷ (c_str message ++ (b'\n' ∷ [])))))

-- What `undoWrite`, `undoReplace` and the slave's `undoCommitOperation` hold.
pub data Undo : Type 0 where
  no_operation : Undo
  undo_write : (file_size_before_write : ℤ) → Undo
  undo_replace : (old_user : Bytes) (number : ℤ) (old_message : Bytes) → Undo

-- `getBulletinBoardFileSize`: -1 where the file cannot be opened
unfoldable pub file_size : Store → ℤ
file_size s = if s.readable then pos (length s.content) else negsuc 0

-- The line that writeOperation stores, in a buffer of 255 bytes.
unfoldable pub message_line : ℕ → Bytes → Bytes → Bytes
unfolding format_line snprintf c_str
message_line number user message = c_str (snprintf 255 (format_line (pos number) user message))

unfoldable pub unavailable : Bool → Bytes → Bytes
unfolding create_message
unavailable hold_lock text = create_message 32 (codes "ERROR WRITE") text (not hold_lock)

unfoldable pub wrote : ℤ → Bool → Bytes
unfolding create_message print_int
wrote number hold_lock = create_message 30 (codes "WROTE") (print_int number) (not hold_lock)

unfoldable pub release_unless : Bool → M (Unit {0})
unfolding release_write_lock
release_unless hold_lock = if hold_lock then pure tt else release_write_lock

-- The write and the count, inside the critical region.
unfoldable pub append_message : Bytes → Bytes → Store → Store
unfolding message_line
append_message user message s = record s {
  content = s.content ++ message_line s.message_number user message;
  message_number = s.message_number + 1;
}

-- `writeOperation`: the response, and the undo action that it leaves in its last argument
unfoldable pub write_operation : Bytes → Bytes → Bool → Undo → M (Bytes × Undo)
unfolding acquire_write_lock append_message release_unless unavailable wrote file_size
write_operation user message hold_lock undo s =
    if not s.writable
    then done (unavailable hold_lock (codes "bbfile currently unavailable"), undo) s
    else (do
      acquire_write_lock
      locked ← get
      modify (append_message user message)
      release_unless hold_lock
      pure (wrote (pos locked.message_number) hold_lock, undo_write (file_size locked)))
        s

-- The line that optimalReplaceAlgorithm stores, in a buffer of 4096 bytes.
unfoldable pub replacement_line : ℤ → Bytes → Bytes → Bytes
unfolding format_line snprintf c_str
replacement_line number user message = c_str (snprintf 4096 (format_line number user message))

unfoldable pub store_content : Option Bytes → M (Unit {0})
store_content none = hang
store_content (some content) = modify (λ s. record s { content = content })

-- `totalBytesBeforeLineToReplace + lengthOfLineToBeReplaced`, an `int`, in cases 2 and 3
abbrev pub overflows_int : ℕ → ℕ → Bytes → Bool
overflows_int old_length before new_line =
    not (old_length == length new_line) && ltb int_max (before + old_length)

-- What follows where an open() fails. Of a file that cannot be read the line has the length 0, and
-- only the last write of case 3 is carried out; of one that cannot be written, case 2 reads an unset
-- struct stat, and the others change nothing.
unfoldable pub replace_unopened : ℕ → ℕ → Bytes → M (Unit {0})
unfolding write_at
replace_unopened old_length before new_line s =
    if s.writable
    then done tt (record s { content = write_at s.content before new_line })
    else if ltb (length new_line) old_length
    then crashes
    else done tt s

-- What follows obtainLengthOfLineToBeReplaced, whose assert fails at the end of the file.
unfoldable pub replace_measured : Search (ℕ × ℕ) → Bytes → M (Unit {0})
unfolding replace_in_place store_content replace_unopened
replace_measured (found (old_length, before)) new_line s =
    if overflows_int old_length before new_line
    then crashes
    else if s.readable && s.writable
    then store_content (replace_in_place s.content before old_length new_line) s
    else replace_unopened old_length before new_line s
replace_measured (missing _) new_line s = crashes
replace_measured endless new_line s = hangs

-- `optimalReplaceAlgorithm`
unfoldable pub optimal_replace_algorithm : Bytes → ℤ → Bytes → M (Unit {0})
unfolding replacement_line measure_line replace_measured
optimal_replace_algorithm new_user number new_message s =
    replace_measured (measure_line (rounds_for s.content) (open_read s) 0 number 0)
      (replacement_line number new_user new_message) s

-- A call of the stored action. truncate() fails on a file that cannot be written.
unfoldable pub run_undo : Undo → M (Unit {0})
unfolding truncate optimal_replace_algorithm
run_undo no_operation s = done tt s
run_undo (undo_write size) s = done tt (record s {
  content = (if s.writable then truncate size s.content else s.content);
  message_number = s.message_number - 1;
})
run_undo (undo_replace old_user number old_message) s =
    optimal_replace_algorithm old_user number old_message s

-- `lineTokens[1]` and `lineTokens[2]`
unfoldable pub second_and_third : List Bytes → Option (Bytes × Bytes)
second_and_third (_ ∷ user ∷ message ∷ _) = some (user, message)
second_and_third _ = none

unfoldable pub line_info : Search Bytes → M (Bytes × Bytes)
unfolding tokenize second_and_third
line_info (found text) s = elim (second_and_third (tokenize text b'/')) [
  | none ↦ crashes
  | some info ↦ done info s
]
line_info (missing _) s = crashes
line_info endless s = hangs

-- `getMessageNumberInfo`, called on a readable file: the buffer is filled before it is used.
unfoldable pub get_message_number_info : ℤ → M (Bytes × Bytes)
unfolding seek_line line_info
get_message_number_info number s =
    line_info (seek_line (rounds_for s.content) (open_read s) 0 number []) s

-- The critical region of replaceOperation, on the parsed arguments.
unfoldable pub replace_message : Bytes → ℤ → Bytes → M Undo
unfolding get_message_number_info optimal_replace_algorithm
replace_message user number new_message = do
  info ← get_message_number_info number
  optimal_replace_algorithm user number new_message
  pure (undo_replace info.0 number info.1)

-- `stoi(replaceArguments[0])` and `replaceArguments[1]`
unfoldable pub replace_arguments : List Bytes → Option (ℤ × Bytes)
unfolding stoi
replace_arguments (number ∷ message ∷ _) = elim (stoi number) [
  | none ↦ none
  | some n ↦ some (n, message)
]
replace_arguments _ = none

unfoldable pub replace_with : Bytes → Bool → Option (ℤ × Bytes) → M (Bytes × Undo)
unfolding replace_message release_unless wrote
replace_with user hold_lock none = crash
replace_with user hold_lock (some (number, new_message)) = do
  undo ← replace_message user number new_message
  release_unless hold_lock
  pure (wrote number hold_lock, undo)

-- `replaceOperation`
unfoldable pub replace_operation : Bytes → Bytes → Bool → Undo → M (Bytes × Undo)
unfolding acquire_write_lock replace_with replace_arguments tokenize unavailable
replace_operation user number_and_message hold_lock undo s =
    if not (s.readable && s.writable)
    then done (unavailable hold_lock (codes "bbfile is currently unavailable"), undo) s
    else (do
      acquire_write_lock
      replace_with user hold_lock (replace_arguments (tokenize number_and_message b'/')))
        s

-- Whether areReplaceArgumentsValid finds the format wrong.
unfoldable pub has_bad_format : List Bytes → Bytes → Bool
unfolding is_number count
has_bad_format (number ∷ [] ∷ []) text = true
has_bad_format (number ∷ message ∷ []) text = not (is_number number) || not (count b'/' text == 1)
has_bad_format _ text = true

-- `messageNumberToReplace >= message_number or messageNumberToReplace < 0`
unfoldable pub is_unknown : ℤ → ℕ → Bool
is_unknown (pos n) message_number = leb message_number n
is_unknown (negsuc n) message_number = true

unfoldable pub check_number : Option (ℤ × Bytes) → M (Bool × Bytes)
unfolding is_unknown create_message print_int
check_number none s = crashes
check_number (some (number, _)) s =
    if is_unknown number s.message_number
    then done (false, create_message 31 (codes "UNKNOWN") (print_int number) true) s
    else done (true, []) s

-- `areReplaceArgumentsValid`
unfoldable pub are_replace_arguments_valid : Bytes → M (Bool × Bytes)
unfolding tokenize has_bad_format check_number replace_arguments create_message
are_replace_arguments_valid text s =
    let arguments = tokenize text b'/' in
    if has_bad_format arguments text
    then done
        (
          false,
          create_message 32 (codes "ERROR WRITE")
              (codes "Incorrect format. Argument must be of the form msgNum/message.") true,
        )
        s
    else check_number (replace_arguments arguments) s
