-- ===== src/Splice/Backward.antt =====
-- The loop of case 2 moves the rest of the file back over a gap.
use bulletin_board.Base.{
  ℕ, zero, suc, ◌+◌, ◌<◌, ◌≡◌, ap, ◌∙◌, sym, some, [], ◌∷◌, ◌++◌, append_assoc, append-nil, arith,
  length, length-append,
}
use bulletin_board.Text.{Bytes}
use bulletin_board.Disk.{write_at, read_at, write_at-seam, read_at-seam}
use bulletin_board.Splice.{shift_backward}

shift_backward-step :
    (fuel limit : ℕ) (content : Bytes) (reader writer c next : ℕ)
    → writer < limit
    → read_at content reader ≡ (c, next)
    → shift_backward (suc fuel) limit content reader writer
      ≡ shift_backward fuel limit (write_at content writer (c ∷ [])) next (writer + 1)
unfolding shift_backward
shift_backward-step fuel limit content reader writer c next lt e = ground arith

shift_backward-stop :
    (fuel limit : ℕ) (content : Bytes) (reader writer : ℕ)
    → writer ≡ limit
    → shift_backward (suc fuel) limit content reader writer ≡ some content
unfolding shift_backward
shift_backward-stop fuel limit content reader writer e = ground arith

-- A byte that is read behind the gap is written in front of it.
write_over_gap :
    (w : ℕ) (xs : Bytes) (x : ℕ) (gap : Bytes) (c : ℕ) (ys : Bytes)
    → w ≡ length xs
    → write_at (xs ++ ((x ∷ gap) ++ (c ∷ ys))) w (c ∷ [])
      ≡ (xs ++ c ∷ []) ++ ((gap ++ c ∷ []) ++ ys)
write_over_gap w xs x gap c ys e =
    write_at-seam w xs ((x ∷ gap) ++ (c ∷ ys)) (c ∷ []) e ∙ simp append_assoc

pub shift_backward-gap :
    (ys : Bytes) (fuel limit reader writer : ℕ) (xs gap : Bytes)
    → length ys < fuel
    → 0 < length gap
    → writer ≡ length xs
    → reader ≡ length xs + length gap
    → limit ≡ length xs + length ys
    → (left : Bytes) × (shift_backward fuel limit (xs ++ (gap ++ ys)) reader writer
        ≡ some (xs ++ (ys ++ left)))
shift_backward-gap ys zero limit reader writer xs gap f g ew er el = absurd (omega arith)
shift_backward-gap ys (suc fuel) limit reader writer xs [] f g ew er el = absurd (omega arith)
shift_backward-gap [] (suc fuel) limit reader writer xs (x ∷ gap) f g ew er el =
    (x ∷ gap, shift_backward-stop fuel limit _ reader writer (omega arith) ∙ simp append-nil)
shift_backward-gap (c ∷ ys) (suc fuel) limit reader writer xs (x ∷ gap) f g ew er el =
    let (left, e) =
      shift_backward-gap ys fuel limit (reader + 1) (writer + 1) (xs ++ c ∷ []) (gap ++ c ∷ [])
        (omega arith) (omega (arith, length-append gap (c ∷ [])))
        (omega (arith, length-append xs (c ∷ [])))
        (omega (arith, length-append xs (c ∷ []), length-append gap (c ∷ [])))
        (omega (arith, length-append xs (c ∷ []))) in
    (
      left,
      shift_backward-step fuel limit (xs ++ ((x ∷ gap) ++ (c ∷ ys))) reader writer c (reader + 1)
            (omega arith)
            (ap (λ l. read_at l reader) (sym (append_assoc xs (x ∷ gap) (c ∷ ys)))
              ∙ read_at-seam reader (xs ++ (x ∷ gap)) c ys
                  (omega (arith, length-append xs (x ∷ gap))))
          ∙ ap (λ l. shift_backward fuel limit l (reader + 1) (writer + 1))
              (write_over_gap writer xs x gap c ys ew)
          ∙ e
          ∙ simp append_assoc,
    )
