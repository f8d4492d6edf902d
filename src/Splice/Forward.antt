-- ===== src/Splice/Forward.antt =====
-- The loop of case 3 moves the rest of the file forward, its last byte first.
use mathlib.Core.List.{reverse-append}
use bulletin_board.Base.{
  ℕ, zero, suc, ◌+◌, ◌-◌, ◌<◌, ◌≤◌, ◌≡◌, refl, ap, ◌∙◌, sym, ◌⊎◌, inl, inr, some, [], ◌∷◌, ◌++◌,
  append_assoc, append-nil, arith, length, length-append, length-reverse, reverse, replicate,
  length-replicate,
}
use bulletin_board.Text.{Bytes}
use bulletin_board.Disk.{write_at, read_at, seek_back, write_at-seam, write_at-past, read_at-seam}
use bulletin_board.Splice.{shift_forward}

shift_forward-stop :
    (fuel limit : ℕ) (content : Bytes) (p writer : ℕ)
    → p < limit
    → shift_forward (suc fuel) limit content (some p) writer ≡ some content
unfolding shift_forward
shift_forward-stop fuel limit content p writer lt = ground arith

-- One round, with both offsets behind it.
shift_forward-step :
    (fuel limit : ℕ) (content : Bytes) (p writer c : ℕ)
    → limit ≤ p
    → 0 < p
    → 0 < writer
    → read_at content p ≡ (c, p + 1)
    → shift_forward (suc fuel) limit content (some p) writer
      ≡ shift_forward fuel limit (write_at content writer (c ∷ [])) (some (p - 1)) (writer - 1)
unfolding shift_forward seek_back
shift_forward-step fuel limit content p writer c le pp pw e = ground arith

-- The last byte of a list that is not empty.
split_last :
    (c : ℕ) (s : Bytes)
    → (init : Bytes) × (last : ℕ) × (c ∷ s ≡ init ++ (last ∷ [])) × (length init ≡ length s)
split_last c [] = ([], c, refl, refl)
split_last c (d ∷ s) =
    let (init, last, e, n) = split_last d s in (c ∷ init, last, ap (◌∷◌ c) e, ap suc n)

-- A byte that is read before the gap is written on the gap's last place.
write_before_tail :
    (w : ℕ) (xs : Bytes) (c : ℕ) (gap tail : Bytes)
    → w ≡ length xs + length gap
    → (gap' : Bytes) × (write_at (xs ++ (c ∷ (gap ++ tail))) w (c ∷ [])
        ≡ xs ++ (gap' ++ (c ∷ tail)))
      × (length gap' ≡ length gap)
write_before_tail w xs c gap tail e =
    let (init, last, split, n) = split_last c gap in
    (
      init,
      ap (λ l. write_at (xs ++ l) w (c ∷ [])) (ap (λ l. l ++ tail) split)
          ∙ ap (λ l. write_at l w (c ∷ [])) (simp append_assoc)
          ∙ write_at-seam w (xs ++ init) (last ∷ tail) (c ∷ [])
              (omega (arith, length-append xs init))
          ∙ append_assoc xs init (c ∷ tail),
      n,
    )

pub reverse-cons-append : (c : ℕ) (rs s : Bytes) → reverse (c ∷ rs) ++ s ≡ reverse rs ++ (c ∷ s)
reverse-cons-append c rs s =
    ap (λ l. l ++ s) (reverse-append (c ∷ []) rs) ∙ append_assoc (reverse rs) (c ∷ []) s

pub shift_forward-gap :
    (rs : Bytes) (fuel limit p writer : ℕ) (xs gap tail : Bytes)
    → length rs < fuel
    → 0 < limit
    → limit ≡ length xs
    → p + 1 ≡ length xs + length rs
    → writer + 1 ≡ length xs + length rs + length gap
    → 0 < length gap
    → (left : Bytes) × (shift_forward fuel limit
          (xs ++ (reverse rs ++ (gap ++ tail)))
          (some p)
          writer
        ≡ some (xs ++ (left ++ (reverse rs ++ tail))))
      × (length left ≡ length gap)
shift_forward-gap rs zero limit p writer xs gap tail f l el ep ew g = absurd (omega arith)
shift_forward-gap [] (suc fuel) limit p writer xs gap tail f l el ep ew g =
    (gap, shift_forward-stop fuel limit _ p writer (omega arith), refl)
shift_forward-gap (c ∷ rs) (suc fuel) limit p writer xs gap tail f l el ep ew g =
    let before : Bytes = xs ++ reverse rs in
    let (gap', written, n) =
      write_before_tail writer before c gap tail
        (omega (arith, length-append xs (reverse rs), length-reverse rs)) in
    let (left, e, m) =
      shift_forward-gap rs fuel limit (p - 1) (writer - 1) xs gap' (c ∷ tail) (omega arith) l el
        (omega arith) (omega arith) (omega arith) in
    let opened : xs ++ (reverse (c ∷ rs) ++ (gap ++ tail)) ≡ before ++ (c ∷ (gap ++ tail)) =
      ap (◌++◌ xs) (reverse-cons-append c rs (gap ++ tail))
      ∙ sym (append_assoc xs (reverse rs) (c ∷ (gap ++ tail))) in
    let read : read_at (xs ++ (reverse (c ∷ rs) ++ (gap ++ tail))) p ≡ (c, p + 1) =
      ap (λ l. read_at l p) opened
      ∙ read_at-seam p before c (gap ++ tail)
          (omega (arith, length-append xs (reverse rs), length-reverse rs)) in
    (
      left,
      shift_forward-step fuel limit _ p writer c (omega arith) (omega arith) (omega arith) read
          ∙ ap (λ l. shift_forward fuel limit l (some (p - 1)) (writer - 1))
              (ap (λ l. write_at l writer (c ∷ [])) opened
                ∙ written
                ∙ append_assoc xs (reverse rs) (gap' ++ (c ∷ tail)))
          ∙ e
          ∙ ap (λ l. some (xs ++ (left ++ l))) (sym (reverse-cons-append c rs tail)),
      m ∙ n,
    )

seek_back_one : (size : ℕ) → 0 < size → seek_back size 1 ≡ some (size - 1)
unfolding seek_back
seek_back_one size h = ground arith

-- What the loop of case 3 has made of `xs ++ tail` when it ends, for a line that grows by `suc n`.
abbrev pub HasRoom : Bytes → Bytes → ℕ → Bytes → Type 0
HasRoom xs tail n moved =
    ((tail ≡ []) × (moved ≡ xs))
    ⊎ ((left : Bytes) × (length left ≡ suc n) × (moved ≡ xs ++ (left ++ tail)))

-- The first round writes behind the end of the file, and fills what is between with NULs.
first_round :
    (rs xs : Bytes) (c limit n size : ℕ)
    → 0 < limit
    → limit ≡ length xs
    → size ≡ length xs + length rs + 1
    → (left : Bytes) × (shift_forward
          (suc size)
          limit
          (xs ++ (reverse rs ++ (c ∷ [])))
          (some (size - 1))
          (size + n)
        ≡ some (xs ++ (left ++ (reverse rs ++ (c ∷ [])))))
      × (length left ≡ suc n)
first_round rs xs c limit n size h e es =
    let content : Bytes = xs ++ (reverse rs ++ (c ∷ [])) in
    let zeros : Bytes = replicate n 0 in
    let (left, moved, m) =
      shift_forward-gap rs size limit (size - 1 - 1) (size + n - 1) xs (c ∷ zeros) (c ∷ [])
        (omega arith) h e (omega arith) (omega (arith, length-replicate {A = ℕ} n 0))
        (omega arith) in
    let written : write_at content (size + n) (c ∷ [])
        ≡ xs ++ (reverse rs ++ ((c ∷ zeros) ++ (c ∷ []))) =
      write_at-past (size + n) n content c [] (
        omega (
          arith,
          length-append xs (reverse rs ++ (c ∷ [])),
          length-append (reverse rs) (c ∷ []),
          length-reverse rs,
        ))
      ∙ simp append_assoc in
    (
      left,
      shift_forward-step size limit content (size - 1) (size + n) c (omega arith) (omega arith)
            (omega arith)
            (ap (λ l. read_at l (size - 1)) (sym (append_assoc xs (reverse rs) (c ∷ [])))
              ∙ read_at-seam (size - 1) (xs ++ reverse rs) c []
                  (omega (arith, length-append xs (reverse rs), length-reverse rs)))
          ∙ ap (λ l. shift_forward size limit l (some (size - 1 - 1)) (size + n - 1)) written
          ∙ moved,
      m ∙ ap suc (length-replicate {A = ℕ} n 0),
    )

pub make_room :
    (rs xs : Bytes) (limit n size : ℕ)
    → 0 < limit
    → limit ≡ length xs
    → size ≡ length xs + length rs
    → (moved : Bytes) × (shift_forward
          (suc size)
          limit
          (xs ++ reverse rs)
          (seek_back size 1)
          (size + n)
        ≡ some moved)
      × HasRoom xs (reverse rs) n moved
make_room [] xs limit n size h e es = (
  xs,
  rw (seek_back_one size (omega arith))
      (shift_forward-stop size limit _ (size - 1) (size + n) (omega arith) ∙ simp append-nil),
  inl (refl, refl),
)
make_room (c ∷ rs) xs limit n size h e es =
    let (left, moved, m) = first_round rs xs c limit n size h e (omega arith) in
    let snoc : reverse (c ∷ rs) ≡ reverse rs ++ (c ∷ []) = reverse-append (c ∷ []) rs in
    (
      xs ++ (left ++ (reverse rs ++ (c ∷ []))),
      rw (seek_back_one size (omega arith)) (
          ap (λ l. shift_forward (suc size) limit (xs ++ l) (some (size - 1)) (size + n)) snoc
          ∙ moved),
      inr (left, m, ap (λ l. xs ++ (left ++ l)) (sym snoc)),
    )
