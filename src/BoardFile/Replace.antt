-- ===== src/BoardFile/Replace.antt =====
-- REPLACE: the line with the number is replaced, and no other line changes.
use bulletin_board.Base.{
  ℕ, ◌+◌, ◌≤◌, ◌<◌, ◌≡◌, ap, ◌∙◌, sym, some, List, [], ◌∷◌, ◌++◌, append_assoc, arith, length,
  length-append,
}
use bulletin_board.Base.Int.{pos, int_max}
use bulletin_board.Text.{Bytes}
use bulletin_board.Text.Lines.{IsLine, IsLine-HasNoNul, HasNoNul-append, c_str-snprintf}
use bulletin_board.LineReader.{file}
use bulletin_board.Splice.{replace_in_place}
use bulletin_board.Splice.Correct.{replace_in_place_lem}
use bulletin_board.Store.{Store, done, open_read}
use bulletin_board.BoardFile.{replace_measured, replacement_line, optimal_replace_algorithm}
use bulletin_board.BoardFile.Loops.{measure_line, seek_line, found, rounds_for}
use bulletin_board.BoardFile.Lines.{
  encode, encode-append, AllFit, AllFit-split, length-le-encode, measure_line-encode,
  seek_line-encode,
}
use bulletin_board.BoardFile.State.{Holds, IsSmall, entry, entry-IsLine, format_line-entry}

-- A line that fits in the larger buffer is stored whole.
replacement_line_lem :
    (n : ℕ) (user message : Bytes)
    → IsLine user
    → IsLine message
    → length (entry n user message) < 4095
    → replacement_line (pos n) user message ≡ entry n user message ++ (b'\n' ∷ [])
unfolding replacement_line
replacement_line_lem n user message u m lt =
    let l : Bytes = entry n user message in
    rw (format_line-entry n user message u m) (
      c_str-snprintf 4096 (l ++ (b'\n' ∷ []))
        (HasNoNul-append l (b'\n' ∷ []) (IsLine-HasNoNul l (entry-IsLine n user message u m))
          (newline, tt))
        (omega (arith, length-append l (b'\n' ∷ []))))
  where
    newline : ¬ (◌≡◌ {A = ℕ} b'\n' 0)
    newline = omega arith

module _ (xs : List Bytes) (old : Bytes) (ys : List Bytes) (s : Store)
    (h : Holds s (xs ++ (old ∷ ys))) where
  abbrev number : ℕ
  number = length xs

  pub split_fit : AllFit xs × AllFit (old ∷ ys)
  split_fit = AllFit-split xs (old ∷ ys) h.fit

  enough : length xs < rounds_for s.content
  enough =
      let bytes = ap length h.encoded in
      omega (arith, bytes, length-le-encode (xs ++ (old ∷ ys)), length-append xs (old ∷ ys))

  opened : open_read s ≡ file (encode (xs ++ (old ∷ ys)))
  opened = ground (arith, h.encoded, h.readable)

  -- The bytes of the file around the line.
  around : (l : Bytes) → encode (xs ++ (l ∷ ys)) ≡ encode xs ++ ((l ++ (b'\n' ∷ [])) ++ encode ys)
  around l =
      encode-append xs (l ∷ ys)
      ∙ ap (◌++◌ (encode xs)) (sym (append_assoc l (b'\n' ∷ []) (encode ys)))

  length-around :
      (l : Bytes)
      → length (encode (xs ++ (l ∷ ys)))
        ≡ length (encode xs) + (length (l ++ (b'\n' ∷ [])) + length (encode ys))
  length-around l =
      ap length (around l)
      ∙ omega (
        arith,
        length-append (encode xs) ((l ++ (b'\n' ∷ [])) ++ encode ys),
        length-append (l ++ (b'\n' ∷ [])) (encode ys),
      )

  -- The line and the bytes before it are part of the file.
  length-before : length (encode xs) + (length old + 1) ≤ length s.content
  length-before =
      omega (arith, ap length h.encoded, length-around old, length-append old (b'\n' ∷ []))

  pub measured :
      length s.content ≤ int_max
      → measure_line (rounds_for s.content) (open_read s) 0 (pos number) 0
        ≡ found (length old + 1, length (encode xs))
  measured le =
      ap (λ d. measure_line (rounds_for s.content) d 0 (pos number) 0) opened
      ∙ measure_line-encode xs old ys (rounds_for s.content) 0 number 0 split_fit.0 split_fit.1.0
          enough (omega arith) (omega (arith, length-before, le))
      ∙ ap (λ k. found (length old + 1, k)) (omega arith)

  pub sought :
      (buffer : Bytes)
      → seek_line (rounds_for s.content) (open_read s) 0 (pos number) buffer ≡ found old
  sought buffer =
      ap (λ d. seek_line (rounds_for s.content) d 0 (pos number) buffer) opened
      ∙ seek_line-encode xs old ys (rounds_for s.content) 0 number buffer split_fit.0 split_fit.1.0
          enough (omega arith)

  replaced_content :
      (new_line : Bytes)
      → length (encode (xs ++ (new_line ∷ ys))) ≤ int_max
      → replace_in_place s.content (length (encode xs)) (length old + 1) (new_line ++ (b'\n' ∷ []))
        ≡ some (encode (xs ++ (new_line ∷ ys)))
  replaced_content new_line le =
      ap (λ c. replace_in_place c (length (encode xs)) (length old + 1) (new_line ++ (b'\n' ∷ [])))
        (h.encoded ∙ around old)
      ∙ ap
          (λ n.
            replace_in_place (encode xs ++ ((old ++ (b'\n' ∷ [])) ++ encode ys))
              (length (encode xs)) n (new_line ++ (b'\n' ∷ [])))
          (sym (length-append old (b'\n' ∷ [])))
      ∙ replace_in_place_lem (encode xs) (old ++ (b'\n' ∷ [])) (new_line ++ (b'\n' ∷ []))
          (encode ys) (omega (arith, length-append old (b'\n' ∷ [])))
          (omega (arith, length-append new_line (b'\n' ∷ [])))
          (omega (arith, le, length-around new_line))
      ∙ ap some (sym (around new_line))

  pub replaced-IsSmall :
      (l : Bytes) → IsSmall s → length l < 255 → length (encode (xs ++ (l ∷ ys))) ≤ int_max
  replaced-IsSmall l le lt = omega (
    arith,
    le,
    ap length h.encoded,
    length-around old,
    length-around l,
    length-append l (b'\n' ∷ []),
    length-append old (b'\n' ∷ []),
  )

  -- The whole algorithm, with the measurement, on the line with this number.
  pub optimal_replace_algorithm_lem :
      (user message : Bytes)
      → IsLine user
      → IsLine message
      → length (entry number user message) < 4095
      → length s.content ≤ int_max
      → length (encode (xs ++ (entry number user message ∷ ys))) ≤ int_max
      → optimal_replace_algorithm user (pos number) message s
        ≡ done tt (record s { content = encode (xs ++ (entry number user message ∷ ys)) })
  unfolding optimal_replace_algorithm replace_measured
  optimal_replace_algorithm_lem user message u m lt le le' = ground (
    arith,
    h.readable,
    h.writable,
    measured le,
    length-before,
    le,
    replacement_line_lem number user message u m lt,
    replaced_content (entry number user message) le',
  )
