-- ===== src/BoardFile/Cut.antt =====
-- WRITE of a line that its buffer cuts.
use bulletin_board.Base.{
  ℕ, ◌+◌, ◌≤◌, ◌<◌, ◌≡◌, ap, ◌∙◌, sym, false, List, [], ◌∷◌, ◌++◌, append_assoc, arith, length,
  take, take-append,
}
use bulletin_board.Base.Int.{pos}
use bulletin_board.Text.{Bytes, snprintf}
use bulletin_board.Text.Lines.{IsLine, IsLine-HasNoNul, HasNoNul-take, c_str_lem}
use bulletin_board.Store.{Store, done}
use bulletin_board.BoardFile.{
  Undo, undo_write, file_size, message_line, append_message, wrote, write_operation,
}
use bulletin_board.BoardFile.Lines.{encode, encode-append}
use bulletin_board.BoardFile.State.{Holds, IsFree, entry, entry-IsLine, format_line-entry}
use bulletin_board.BoardFile.Write.{written, write_operation_effect, message_line_lem}

pub message_line_cut :
    (n : ℕ) (user message : Bytes)
    → IsLine user
    → IsLine message
    → 254 ≤ length (entry n user message)
    → message_line n user message ≡ take 254 (entry n user message)
unfolding message_line snprintf
message_line_cut n user message u m le =
    let l : Bytes = entry n user message in
    rw (format_line-entry n user message u m) (
      rw (take-append 254 l (b'\n' ∷ []) le) (
        c_str_lem (take 254 l)
          (HasNoNul-take 254 l (IsLine-HasNoNul l (entry-IsLine n user message u m)))))

-- On a board that holds `ls`, with the lock free, two messages are written, the first of which has a
-- line of 254 bytes or more and the second a shorter one. Both are answered with a number of their
-- own, and the count grows by two, but the file has one line more only: what is left of the first
-- line, with the second behind it.
pub write_operation_glued :
    (user message user' message' : Bytes) (undo undo' : Undo) (s : Store) (ls : List Bytes)
    → Holds s ls
    → IsFree s.access_data
    → IsLine user
    → IsLine message
    → IsLine user'
    → IsLine message'
    → 254 ≤ length (entry s.message_number user message)
    → length (entry (s.message_number + 1) user' message') < 254
    → (t : Store) × (t' : Store) × (write_operation user message false undo s
        ≡ done (wrote (pos s.message_number) false, undo_write (file_size s)) t)
      × (write_operation user' message' false undo' t
          ≡ done (wrote (pos (s.message_number + 1)) false, undo_write (file_size t)) t')
      × (t'.content
          ≡ encode (
              ls
              ++ ((take 254 (entry s.message_number user message)
                    ++ entry (s.message_number + 1) user' message')
                  ∷ [])))
      × (t'.message_number ≡ length ls + 2)
unfolding append_message
write_operation_glued user message user' message' undo undo' s ls h free u m u' m' le lt =
    let t = written user message false s in
    let first = take 254 (entry s.message_number user message) in
    let second = entry (s.message_number + 1) user' message' in
    (
      t,
      written user' message' false t,
      write_operation_effect user message false undo s h.writable free,
      write_operation_effect user' message' false undo' t h.writable free,
      ap
            (λ c.
              (c ++ message_line s.message_number user message)
              ++ message_line (s.message_number + 1) user' message')
            h.encoded
          ∙ ap (λ c. (encode ls ++ c) ++ message_line (s.message_number + 1) user' message')
              (message_line_cut s.message_number user message u m le)
          ∙ ap (λ c. (encode ls ++ first) ++ c)
              (message_line_lem (s.message_number + 1) user' message' u' m' lt)
          ∙ append_assoc (encode ls) first (second ++ (b'\n' ∷ []))
          ∙ ap (◌++◌ (encode ls)) (sym (append_assoc first second (b'\n' ∷ [])))
          ∙ sym (encode-append ls ((first ++ second) ∷ [])),
      omega (arith, h.counted),
    )
