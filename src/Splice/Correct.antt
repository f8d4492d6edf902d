-- ===== src/Splice/Correct.antt =====
-- Whatever the two lengths, the in-place algorithm does what a splice of three lists does.
use mathlib.Core.List.{reverse-reverse}
use mathlib.Core.Path.{subst}
use native.Mathlib.Decide.{dec_lt}
use bulletin_board.Base.{
  ℕ, zero, suc, ◌+◌, ◌-◌, ◌<◌, ◌≤◌, ◌≡◌, refl, ap, ◌∙◌, sym, ◌⊎◌, inl, inr, some, [], ◌∷◌, ◌++◌,
  append_assoc, arith, length, drop, length-append, length-reverse, reverse, drop-seam, drop-past,
  length-drop,
}
use bulletin_board.Base.Int.{int_max, wrap_int, wrap_int_lem}
use bulletin_board.Text.{Bytes}
use bulletin_board.Disk.{write_at, seek_back, write_at-seam, truncate-seam}
use bulletin_board.Splice.{
  close_gap, move_back, cut_to, store_line, shift_forward, replace_shorter, replace_longer,
  replace_in_place,
}
use bulletin_board.Splice.Backward.{shift_backward-gap}
use bulletin_board.Splice.Forward.{HasRoom, make_room}

drop-length : (k : ℕ) (xs ys : Bytes) → k ≤ length xs → drop k (xs ++ ys) ≡ drop k xs ++ ys
drop-length zero xs ys h = refl
drop-length (suc k) [] ys h = absurd (omega arith)
drop-length (suc k) (x ∷ xs) ys h = drop-length k xs ys (omega arith)

close_gap_lem :
    (xs gap ys : Bytes) (reader writer shrink : ℕ)
    → 0 < length gap
    → writer ≡ length xs
    → reader ≡ length xs + length gap
    → shrink ≡ length gap
    → length xs + length ys ≤ int_max
    → close_gap (xs ++ (gap ++ ys)) reader writer shrink ≡ some (xs ++ ys)
unfolding close_gap move_back
close_gap_lem xs gap ys reader writer shrink g ew er es le =
    let limit : ℕ = length xs + length ys in
    let size : length (xs ++ (gap ++ ys)) - shrink ≡ limit =
      omega (arith, length-append xs (gap ++ ys), length-append gap ys) in
    let (left, moved) =
      shift_backward-gap ys (suc limit) limit reader writer xs gap (omega arith) g ew er refl in
    ap (λ n. move_back (xs ++ (gap ++ ys)) reader writer (wrap_int n)) size
    ∙ ap (move_back (xs ++ (gap ++ ys)) reader writer) (wrap_int_lem limit le)
    ∙ ap (cut_to limit) (moved ∙ ap some (sym (append_assoc xs ys left)))
    ∙ ap some (truncate-seam limit (xs ++ ys) left (sym (length-append xs ys)))

-- The line is written over what the loop has left.
store_line_lem :
    (before old new_line after moved : Bytes) (n : ℕ)
    → length old + suc n ≡ length new_line
    → HasRoom (before ++ old) after n moved
    → write_at moved (length before) new_line ≡ before ++ (new_line ++ after)
store_line_lem before old new_line after moved n e (inl (none_after, same)) =
    ap (λ l. write_at l (length before) new_line) same
    ∙ write_at-seam (length before) before old new_line refl
    ∙ ap (λ l. before ++ (new_line ++ l))
        (drop-past (length new_line) old (omega arith) ∙ sym none_after)
store_line_lem before old new_line after moved n e (inr (left, m, room)) =
    ap (λ l. write_at l (length before) new_line) (room ∙ append_assoc before old (left ++ after))
    ∙ write_at-seam (length before) before (old ++ (left ++ after)) new_line refl
    ∙ ap (λ l. before ++ (new_line ++ drop (length new_line) l)) (sym (append_assoc old left after))
    ∙ ap (λ l. before ++ (new_line ++ l))
        (drop-seam (length new_line) (old ++ left) after (omega (arith, length-append old left)))

module _ (before old new_line after : Bytes) (has_line : 0 < length new_line) where
  abbrev file_before : Bytes
  file_before = before ++ (old ++ after)

  same :
      length old ≡ length new_line
      → write_at file_before (length before) new_line ≡ before ++ (new_line ++ after)
  same e =
      write_at-seam (length before) before (old ++ after) new_line refl
      ∙ ap (λ l. before ++ (new_line ++ l)) (drop-seam (length new_line) old after (sym e))

  abbrev gap : Bytes
  gap = drop (length new_line) old

  shorter_written :
      length new_line ≤ length old
      → write_at file_before (length before) new_line ≡ (before ++ new_line) ++ (gap ++ after)
  shorter_written le =
      write_at-seam (length before) before (old ++ after) new_line refl
      ∙ ap (λ l. before ++ (new_line ++ l)) (drop-length (length new_line) old after le)
      ∙ sym (append_assoc before new_line (gap ++ after))

  shorter :
      (n : ℕ)
      → length new_line + suc n ≡ length old
      → length before + (length new_line + length after) ≤ int_max
      → replace_shorter file_before (length before) (length old) new_line (suc n)
        ≡ some (before ++ (new_line ++ after))
  unfolding replace_shorter
  shorter n e le =
      ap (λ l. close_gap l (length before + length old) (length before + length new_line) (suc n))
        (shorter_written (omega arith))
      ∙ close_gap_lem (before ++ new_line) gap after (length before + length old)
          (length before + length new_line) (suc n)
          (omega (arith, length-drop (length new_line) old)) (sym (length-append before new_line))
          (omega (arith, length-append before new_line, length-drop (length new_line) old))
          (omega (arith, length-drop (length new_line) old))
          (omega (arith, length-append before new_line))
      ∙ ap some (append_assoc before new_line after)

  longer :
      (n : ℕ)
      → length old + suc n ≡ length new_line
      → 0 < length old
      → replace_longer file_before (length before) (length old) new_line (suc n)
        ≡ some (before ++ (new_line ++ after))
  unfolding replace_longer
  longer n e h =
      let size : ℕ = length file_before in
      let turned : file_before ≡ (before ++ old) ++ reverse (reverse after) =
        sym (append_assoc before old after)
        ∙ ap (◌++◌ (before ++ old)) (sym (reverse-reverse after)) in
      let (moved, loop, room) =
        make_room (reverse after) (before ++ old) (length before + length old) n size (omega arith)
          (sym (length-append before old))
          (omega (
            arith,
            length-append before (old ++ after),
            length-append old after,
            length-append before old,
            length-reverse after,
          )) in
      ap
        (λ k. store_line (length before) new_line (
          shift_forward (suc size) (length before + length old) file_before (seek_back size 1)
            (size + k)))
        (let back : suc n - 1 ≡ n = omega arith in back)
      ∙ ap
          (λ l.
            store_line (length before) new_line (
              shift_forward (suc size) (length before + length old) l (seek_back size 1)
                (size + n)))
          turned
      ∙ ap (store_line (length before) new_line) loop
      ∙ ap some (
          store_line_lem before old new_line after moved n e
            (subst (λ l. HasRoom (before ++ old) l n moved) (reverse-reverse after) room))

-- Two lengths are equal, or one is the other and one more at least.
trichotomy : (a b : ℕ) → (a ≡ b) ⊎ ((n : ℕ) × (b + suc n ≡ a)) ⊎ ((n : ℕ) × (a + suc n ≡ b))
trichotomy a b = elim (dec_lt a b) [
  | yes lt ↦ inr (inr (b - a - 1, omega arith))
  | no ge ↦ elim (dec_lt b a) [
    | yes gt ↦ inr (inl (a - b - 1, omega arith))
    | no le ↦ inl (omega arith)
  ]
]

module _ (content : Bytes) (before old_length : ℕ) (new_line : Bytes) where
  case_same :
      old_length ≡ length new_line
      → replace_in_place content before old_length new_line
        ≡ some (write_at content before new_line)
  unfolding replace_in_place
  case_same e = ground arith

  case_shorter :
      (n : ℕ)
      → length new_line + suc n ≡ old_length
      → replace_in_place content before old_length new_line
        ≡ replace_shorter content before old_length new_line (suc n)
  unfolding replace_in_place
  case_shorter n e = let less : old_length - length new_line - 1 ≡ n = omega arith in ground arith

  case_longer :
      (n : ℕ)
      → old_length + suc n ≡ length new_line
      → replace_in_place content before old_length new_line
        ≡ replace_longer content before old_length new_line (suc n)
  unfolding replace_in_place
  case_longer n e = let more : length new_line - old_length ≡ suc n = omega arith in ground arith

pub replace_in_place_lem :
    (before old new_line after : Bytes)
    → 0 < length old
    → 0 < length new_line
    → length before + (length new_line + length after) ≤ int_max
    → replace_in_place (before ++ (old ++ after)) (length before) (length old) new_line
      ≡ some (before ++ (new_line ++ after))
replace_in_place_lem before old new_line after h k le =
    let content : Bytes = before ++ (old ++ after) in
    elim (trichotomy (length old) (length new_line)) [
      | inl e ↦
          case_same content (length before) (length old) new_line e
          ∙ ap some (same before old new_line after k e)
      | inr (inl (n, e)) ↦
          case_shorter content (length before) (length old) new_line n e
          ∙ shorter before old new_line after k n e le
      | inr (inr (n, e)) ↦
          case_longer content (length before) (length old) new_line n e
          ∙ longer before old new_line after k n e h
    ]
