-- ===== src/Splice.antt =====
-- file-operations.cpp, the body of optimalReplaceAlgorithm behind its measurements: one line of the
-- file is replaced in place, and what follows it is moved a byte at a time.
mod Backward
mod Forward
pub mod Correct
use bulletin_board.Base.{
  ℕ, zero, suc, ◌+◌, ◌-◌, ◌≡◌, refl, Bool, true, false, Option, none, some, List, [], ◌∷◌, ltb, leb,
  ◌==◌, if◌then◌else◌, length,
}
use bulletin_board.Base.Int.{ℤ, pos, negsuc, sub_ℕ, wrap_int}
use bulletin_board.Text.{Bytes, codes}
use bulletin_board.Disk.{write_at, truncate, seek_back, read_at}

-- The loop of case 2, while the writer stands before `limit`; `none` if the fuel runs out.
unfoldable pub shift_backward : ℕ → ℕ → Bytes → ℕ → ℕ → Option Bytes
shift_backward zero limit content reader writer = none
shift_backward (suc fuel) limit content reader writer = elim (ltb writer limit) [
  | false ↦ some content
  | true ↦
      shift_backward fuel limit (write_at content writer ((read_at content reader).0 ∷ []))
        (read_at content reader).1 (writer + 1)
]

-- `currentReaderPosition >= temp`, where a refused lseek left -1
unfoldable pub reaches : Option ℕ → ℕ → Bool
reaches none limit = false
reaches (some p) limit = leb limit p

-- The offset after an lseek: a refused one does not move it.
abbrev pub offset_after : ℕ → Option ℕ → ℕ
offset_after p none = p
offset_after p (some q) = q

-- The loop of case 3. `reader` is what the last lseek on fd1 returned.
unfoldable pub shift_forward : ℕ → ℕ → Bytes → Option ℕ → ℕ → Option Bytes
unfolding reaches
shift_forward zero limit content reader writer = none
shift_forward (suc fuel) limit content none writer = some content
shift_forward (suc fuel) limit content (some p) writer = elim (reaches (some p) limit) [
  | false ↦ some content
  | true ↦
      shift_forward fuel limit (write_at content writer ((read_at content p).0 ∷ []))
        (seek_back (read_at content p).1 2) (offset_after (writer + 1) (seek_back (writer + 1) 2))
]

-- `ftruncate`, once the loop has ended
unfoldable pub cut_to : ℕ → Option Bytes → Option Bytes
cut_to size none = none
cut_to size (some moved) = some (truncate (pos size) moved)

-- Case 2 with `fileSizeAfterReplacement`: where that is negative, the loop does not run and ftruncate
-- is refused.
unfoldable pub move_back : Bytes → ℕ → ℕ → ℤ → Option Bytes
unfolding cut_to shift_backward
move_back written reader writer (pos size) =
    cut_to size (shift_backward (suc size) size written reader writer)
move_back written reader writer (negsuc n) = some written

-- Case 2 behind the write of the line: the rest moves back, and the file is cut by `shrink` bytes. The
-- new size is stored in an `int`.
unfoldable pub close_gap : Bytes → ℕ → ℕ → ℕ → Option Bytes
unfolding move_back wrap_int
close_gap written reader writer shrink =
    move_back written reader writer (wrap_int (length written - shrink))

unfoldable pub replace_shorter : Bytes → ℕ → ℕ → Bytes → ℕ → Option Bytes
unfolding close_gap
replace_shorter content before old_length new_line shrink =
    close_gap (write_at content before new_line) (before + old_length) (before + length new_line)
      shrink

-- The write of the line at the end of case 3.
unfoldable pub store_line : ℕ → Bytes → Option Bytes → Option Bytes
store_line before new_line none = none
store_line before new_line (some moved) = some (write_at moved before new_line)

-- Case 3: the rest moves forward by `grow` bytes, from its end, and the line is written.
unfoldable pub replace_longer : Bytes → ℕ → ℕ → Bytes → ℕ → Option Bytes
unfolding shift_forward store_line
replace_longer content before old_length new_line grow =
    let size = length content in
    store_line before new_line (
      shift_forward (suc size) (before + old_length) content (seek_back size 1) (size + (grow - 1)))

-- The three cases; `difference` is the source's `differenceInLength`.
unfoldable pub replace_in_place : Bytes → ℕ → ℕ → Bytes → Option Bytes
unfolding replace_shorter replace_longer
replace_in_place content before old_length new_line =
    let difference = sub_ℕ (length new_line) old_length in
    if old_length == length new_line
    then some (write_at content before new_line)
    else elim difference [
      | negsuc n ↦ replace_shorter content before old_length new_line (suc n)
      | pos n ↦ replace_longer content before old_length new_line n
    ]

three_cases :
    (replace_in_place (codes "abXYcd") 2 2 (codes "123") ≡ some (codes "ab123cd"))
    × (replace_in_place (codes "abXYcd") 2 2 (codes "1") ≡ some (codes "ab1cd"))
    × (replace_in_place (codes "abXYcd") 2 2 (codes "12") ≡ some (codes "ab12cd"))
unfolding replace_in_place write_at read_at truncate seek_back
three_cases = (refl, refl, refl)
