-- ===== src/BoardFile/Counts.antt =====
-- The count of messages that the server starts with, for lines of any length.
use bulletin_board.Base.{
  ℕ, zero, suc, ◌+◌, ◌-◌, ◌*◌, ◌/◌, ◌≤◌, ◌<◌, ◌≡◌, refl, sym, ap, ◌∙◌, Bool, true, false, some,
  List, [], ◌∷◌, ◌++◌, append_assoc, append-nil, arith, length, length-append,
}
use bulletin_board.Base.Counting.{total}
use bulletin_board.Text.{Bytes}
use bulletin_board.Text.Lines.{IsLine}
use mathlib.Core.Path.{subst}
use bulletin_board.LineReader.{Descriptor, file, line, fill, readline}
use bulletin_board.LineReader.Files.{readline-IsLine, readline-end}
use bulletin_board.Store.{Store, done, open_read}
use bulletin_board.BoardFile.{set_initial_message_number}
use bulletin_board.BoardFile.Loops.{line_max, rounds_for, count_lines}
use bulletin_board.BoardFile.Lines.{encode}

abbrev pub AllLines : List Bytes → Type 0
AllLines [] = Unit
AllLines (l ∷ ls) = IsLine l × AllLines ls

-- The calls of readline that a line takes.
abbrev pub chunks : Bytes → ℕ
chunks l = suc (length l / 255)

fill-full :
    (l buf rest : Bytes) (begin : Bool)
    → IsLine l
    → fill (length l) begin buf (file (l ++ rest))
      ≡ record { outcome = line (buf ++ l); residue = 0; rest = file rest }
unfolding fill
fill-full [] buf rest begin h = rw append-nil
fill-full (c ∷ l) buf rest begin h =
    ground (arith, fill-full l (buf ++ c ∷ []) rest false, append_assoc buf (c ∷ []) l)

IsLine-split : (xs ys : Bytes) → IsLine (xs ++ ys) → IsLine xs × IsLine ys
IsLine-split [] ys h = (tt, h)
IsLine-split (x ∷ xs) ys h = let (a, b) = IsLine-split xs ys h.1 in ((h.0, a), b)

split_at :
    (n : ℕ) (l : Bytes)
    → n ≤ length l
    → (xs : Bytes) × (ys : Bytes) × (l ≡ xs ++ ys) × (length xs ≡ n)
split_at zero l h = ([], l, refl, refl)
split_at (suc n) [] h = absurd (omega arith)
split_at (suc n) (c ∷ l) h =
    let (xs, ys, e, k) = split_at n l (omega arith) in (c ∷ xs, ys, ap (λ t. c ∷ t) e, omega arith)

-- A call stops behind 255 bytes.
readline-full :
    (l rest : Bytes)
    → IsLine l
    → length l ≡ line_max
    → readline (file (l ++ rest)) line_max
      ≡ record { outcome = line l; residue = 0; rest = file rest }
unfolding readline
readline-full l rest h e =
    ap (λ n. fill n true [] (file (l ++ rest))) (sym e) ∙ fill-full l [] rest true h

count_lines-turn :
    (fuel n : ℕ) (l : Bytes) (d d' : Descriptor)
    → readline d line_max ≡ record { outcome = line l; residue = 0; rest = d' }
    → count_lines (suc fuel) d n ≡ count_lines fuel d' (n + 1)
unfolding count_lines
count_lines-turn fuel n l d d' e = ground (arith, e)

count_lines-line :
    (q : ℕ) (l rest : Bytes) (fuel n : ℕ)
    → IsLine l
    → 255 * q ≤ length l
    → length l < 255 * suc q
    → count_lines (suc q + fuel) (file (l ++ (b'\n' ∷ rest))) n
      ≡ count_lines fuel (file rest) (n + suc q)
count_lines-line zero l rest fuel n h le lt =
    ap (λ k. count_lines k (file (l ++ (b'\n' ∷ rest))) n) (omega arith)
    ∙ count_lines-turn fuel n l _ _ (readline-IsLine l rest line_max h (omega arith))
count_lines-line (suc q) l rest fuel n h le lt =
    let (xs, ys, e, k) = split_at 255 l (omega arith) in
    let (x, y) = IsLine-split xs ys (subst IsLine e h) in
    let lengths : length l ≡ length xs + length ys = ap length e ∙ length-append xs ys in
    ap (λ m. count_lines m (file (l ++ (b'\n' ∷ rest))) n) (omega arith)
    ∙ count_lines-turn (suc q + fuel) n xs _ _ (
        ap (λ t. readline (file t) line_max)
          (ap (λ t. t ++ (b'\n' ∷ rest)) e ∙ append_assoc xs ys (b'\n' ∷ rest))
        ∙ readline-full xs (ys ++ (b'\n' ∷ rest)) x k)
    ∙ count_lines-line q ys rest fuel (n + 1) y (omega arith) (omega arith)
    ∙ ap (count_lines fuel (file rest)) (omega arith)

count_lines-encode :
    (ls : List Bytes) (fuel n : ℕ)
    → AllLines ls
    → total chunks ls < fuel
    → count_lines fuel (file (encode ls)) n ≡ some (n + total chunks ls)
unfolding total
count_lines-encode [] zero n h lt = absurd (omega arith)
count_lines-encode [] (suc fuel) n h lt =
    unfold count_lines in ground (arith, readline-end line_max (omega arith))
count_lines-encode (l ∷ ls) fuel n h lt =
    let q = length l / 255 in
    let k = fuel - suc q in
    ap (λ m. count_lines m (file (encode (l ∷ ls))) n) (omega arith)
    ∙ count_lines-line q l (encode ls) k n h.0 (omega arith) (omega arith)
    ∙ count_lines-encode ls k (n + suc q) h.1 (omega arith)
    ∙ ap some (omega arith)

total-le-encode : (ls : List Bytes) → total chunks ls ≤ length (encode ls)
unfolding total
total-le-encode [] = omega arith
total-le-encode (l ∷ ls) = omega (arith, length-append l (b'\n' ∷ encode ls), total-le-encode ls)

-- On a readable file of lines of any length the count at the start ends. A line counts once, and
-- once more for each 255 bytes that it has: only where all are shorter are the messages counted.
pub set_initial_message_number-chunks :
    (s : Store) (ls : List Bytes)
    → s.readable ≡ true
    → s.content ≡ encode ls
    → AllLines ls
    → set_initial_message_number s ≡ done tt (record s { message_number = total chunks ls })
unfolding set_initial_message_number
set_initial_message_number-chunks s ls r e h =
    let opened : open_read s ≡ file (encode ls) = ground (arith, e, r) in
    let counted : count_lines (rounds_for s.content) (open_read s) 0 ≡ some (total chunks ls) =
      ap (λ d. count_lines (rounds_for s.content) d 0) opened
      ∙ count_lines-encode ls (rounds_for s.content) 0 h
          (let bytes = ap length e in omega (arith, bytes, total-le-encode ls))
      ∙ ap some (omega arith) in
    ground (arith, counted)
