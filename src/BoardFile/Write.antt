-- ===== src/BoardFile/Write.antt =====
-- WRITE: what writeOperation does to the board, and that its undo action takes it back.
use bulletin_board.Base.{
  ℕ, ◌<◌, ◌≡◌, refl, ap, ◌∙◌, sym, Bool, true, false, List, [], ◌∷◌, ◌++◌, arith, length,
  length-append,
}
use bulletin_board.Base.Int.{pos}
use bulletin_board.Text.{Bytes}
use bulletin_board.Text.Lines.{IsLine, IsLine-HasNoNul, HasNoNul-append, c_str-snprintf}
use bulletin_board.Disk.{truncate-seam, truncate}
use bulletin_board.Store.{Store, done, bind}
use bulletin_board.BoardFile.{
  Undo, undo_write, file_size, message_line, append_message, wrote, write_operation, run_undo,
}
use bulletin_board.BoardFile.Lines.{encode-append, AllFit-append}
use bulletin_board.BoardFile.State.{
  Holds, IsFree, entry, entry-IsLine, access_after, acquire_write_lock-IsFree, release_unless_held,
  format_line-entry,
}

-- The state after a write.
abbrev pub written : Bytes → Bytes → Bool → Store → Store
written user message hold s = record (append_message user message s) {
  access_data = access_after hold s.access_data;
}

pub write_operation_effect :
    (user message : Bytes) (hold : Bool) (undo : Undo) (s : Store)
    → s.writable ≡ true
    → IsFree s.access_data
    → write_operation user message hold undo s
      ≡ done
          (wrote (pos s.message_number) hold, undo_write (file_size s))
          (written user message hold s)
unfolding write_operation
write_operation_effect user message hold undo s w h = ground (
  arith,
  acquire_write_lock-IsFree s h,
  release_unless_held hold
      (append_message user message (record s { access_data = access_after true s.access_data }))
      s.access_data h,
)

-- A line that fits in the buffer is stored whole.
pub message_line_lem :
    (n : ℕ) (user message : Bytes)
    → IsLine user
    → IsLine message
    → length (entry n user message) < 254
    → message_line n user message ≡ entry n user message ++ (b'\n' ∷ [])
unfolding message_line
message_line_lem n user message u m lt =
    let l : Bytes = entry n user message in
    rw (format_line-entry n user message u m) (
      c_str-snprintf 255 (l ++ (b'\n' ∷ []))
        (HasNoNul-append l (b'\n' ∷ []) (IsLine-HasNoNul l (entry-IsLine n user message u m))
          (newline, tt))
        (omega (arith, length-append l (b'\n' ∷ []))))
  where
    newline : ¬ (◌≡◌ {A = ℕ} b'\n' 0)
    newline = omega arith

written-Holds :
    (user message : Bytes) (hold : Bool) (s : Store) (ls : List Bytes)
    → Holds s ls
    → IsLine user
    → IsLine message
    → length (entry s.message_number user message) < 254
    → Holds (written user message hold s) (ls ++ (entry s.message_number user message ∷ []))
unfolding append_message
written-Holds user message hold s ls h u m lt = record {
  encoded =
      ap (◌++◌ s.content) (message_line_lem s.message_number user message u m lt)
      ∙ ap (λ c. c ++ (l ++ (b'\n' ∷ []))) h.encoded
      ∙ sym (encode-append ls (l ∷ []));
  fit =
      AllFit-append ls (l ∷ []) h.fit
        ((entry-IsLine s.message_number user message u m, omega arith), tt);
  counted = omega (arith, h.counted, length-append ls (l ∷ []));
  readable = h.readable;
  writable = h.writable;
}
  where
    l : Bytes
    l = entry s.message_number user message

file_size_readable : (s : Store) → s.readable ≡ true → file_size s ≡ pos (length s.content)
unfolding file_size
file_size_readable s r = ground arith

-- On a board that holds `ls` and can be read and written, with the lock free, a message whose
-- line takes less than 254 bytes is appended as one line with the next number, and the board
-- holds it behind `ls`; the response names that number, and the lock is kept exactly if
-- `hold_lock` says so.
pub write_operation-Holds :
    (user message : Bytes) (hold : Bool) (undo : Undo) (s : Store) (ls : List Bytes)
    → Holds s ls
    → IsFree s.access_data
    → IsLine user
    → IsLine message
    → length (entry s.message_number user message) < 254
    → (s' : Store) × (write_operation user message hold undo s
        ≡ done (wrote (pos s.message_number) hold, undo_write (pos (length s.content))) s')
      × Holds s' (ls ++ (entry s.message_number user message ∷ []))
      × (s'.access_data ≡ access_after hold s.access_data)
write_operation-Holds user message hold undo s ls h free u m lt = (
  written user message hold s,
  write_operation_effect user message hold undo s h.writable free
      ∙ ap
          (λ z.
            done (wrote (pos s.message_number) hold, undo_write z) (written user message hold s))
          (file_size_readable s h.readable),
  written-Holds user message hold s ls h u m lt,
  refl,
)

-- The undo action of a write gives back the file and the count of messages as they were, whatever
-- was written, as long as the file can be read and written; the lock is still held.
pub run_undo-write_operation :
    (user message : Bytes) (undo : Undo) (s : Store)
    → s.readable ≡ true
    → s.writable ≡ true
    → IsFree s.access_data
    → bind (write_operation user message true undo s) (λ r. run_undo r.1)
      ≡ done tt (record s { access_data = access_after true s.access_data })
unfolding run_undo file_size append_message
run_undo-write_operation user message undo s r w free =
    rw (write_operation_effect user message true undo s w free) (
      ground (
        arith,
        file_size_readable s r,
        truncate-seam (length s.content) s.content (message_line s.message_number user message)
            refl,
      ))

-- Without permission to read the file its size is taken to be -1: the undo action then takes back
-- the count of messages and leaves the line in the file.
pub run_undo_unreadable :
    (user message : Bytes) (undo : Undo) (s : Store)
    → s.readable ≡ false
    → s.writable ≡ true
    → IsFree s.access_data
    → bind (write_operation user message true undo s) (λ r. run_undo r.1)
      ≡ done tt (record s {
        content = s.content ++ message_line s.message_number user message;
        access_data = access_after true s.access_data;
      })
unfolding run_undo file_size append_message truncate
run_undo_unreadable user message undo s r w free =
    rw (write_operation_effect user message true undo s w free) (ground arith)
