-- ===== src/BoardFile/Lines.antt =====
-- The loops over a file of well-formed lines.
use bulletin_board.Base.{
  ℕ, zero, suc, ◌+◌, ◌≤◌, ◌<◌, ◌≡◌, refl, ap, ◌∙◌, sym, some, List, [], ◌∷◌, ◌++◌, append_assoc,
  arith, length, length-append,
}
use bulletin_board.Base.Int.{pos, int_max}
use bulletin_board.Text.{Bytes}
use bulletin_board.LineReader.{file, line, ReadLine, readline}
use bulletin_board.LineReader.Files.{readline-IsLine, readline-end}
use bulletin_board.Text.Lines.{IsLine}
use bulletin_board.BoardFile.Loops.{line_max, count_lines, found, seek_line, measure_line}

-- A file with a newline behind each line.
abbrev pub encode : List Bytes → Bytes
encode [] = []
encode (l ∷ ls) = l ++ (b'\n' ∷ encode ls)

-- A line that readline returns whole.
abbrev pub Fits : Bytes → Type 0
Fits l = IsLine l × (length l < line_max)

abbrev pub AllFit : List Bytes → Type 0
AllFit [] = Unit
AllFit (l ∷ ls) = Fits l × AllFit ls

pub encode-append : (xs ys : List Bytes) → encode (xs ++ ys) ≡ encode xs ++ encode ys
encode-append [] ys = refl
encode-append (x ∷ xs) ys =
    ap (λ l. x ++ (b'\n' ∷ l)) (encode-append xs ys)
    ∙ sym (append_assoc x (b'\n' ∷ encode xs) (encode ys))

pub length-le-encode : (ls : List Bytes) → length ls ≤ length (encode ls)
length-le-encode [] = omega arith
length-le-encode (l ∷ ls) = omega (arith, length-append l (b'\n' ∷ encode ls), length-le-encode ls)

pub AllFit-append : (xs ys : List Bytes) → AllFit xs → AllFit ys → AllFit (xs ++ ys)
AllFit-append [] ys h k = k
AllFit-append (x ∷ xs) ys h k = (h.0, AllFit-append xs ys h.1 k)

pub AllFit-split : (xs ys : List Bytes) → AllFit (xs ++ ys) → AllFit xs × AllFit ys
AllFit-split [] ys h = (tt, h)
AllFit-split (x ∷ xs) ys h = let (a, b) = AllFit-split xs ys h.1 in ((h.0, a), b)

-- What a call of readline finds in front of the rest of such a file.
abbrev pub line_read : Bytes → List Bytes → ReadLine
line_read l ls = record { outcome = line l; residue = 0; rest = file (encode ls) }

pub readline-encode :
    (l : Bytes) (ls : List Bytes)
    → Fits l
    → readline (file (encode (l ∷ ls))) line_max ≡ line_read l ls
readline-encode l ls h = readline-IsLine l (encode ls) line_max h.0 h.1

pub count_lines-encode :
    (ls : List Bytes) (fuel n : ℕ)
    → AllFit ls
    → length ls < fuel
    → count_lines fuel (file (encode ls)) n ≡ some (n + length ls)
unfolding count_lines
count_lines-encode ls zero n h lt = absurd (omega arith)
count_lines-encode [] (suc fuel) n h lt = ground (arith, readline-end line_max (omega arith))
count_lines-encode (l ∷ ls) (suc fuel) n h lt =
    ground (arith, readline-encode l ls h.0, count_lines-encode ls fuel (n + 1) h.1)

pub seek_line-encode :
    (xs : List Bytes) (l : Bytes) (ys : List Bytes) (fuel k n : ℕ) (buffer : Bytes)
    → AllFit xs
    → Fits l
    → length xs < fuel
    → n ≡ k + length xs
    → seek_line fuel (file (encode (xs ++ (l ∷ ys)))) k (pos n) buffer ≡ found l
unfolding seek_line
seek_line-encode xs l ys zero k n buffer h f lt e = absurd (omega arith)
seek_line-encode [] l ys (suc fuel) k n buffer h f lt e = ground (arith, readline-encode l ys f)
seek_line-encode (x ∷ xs) l ys (suc fuel) k n buffer h f lt e =
    ground (
      arith,
      readline-encode x (xs ++ (l ∷ ys)) h.0,
      seek_line-encode xs l ys fuel (k + 1) n x h.1 f,
    )

pub measure_line-encode :
    (xs : List Bytes) (l : Bytes) (ys : List Bytes) (fuel k n before : ℕ)
    → AllFit xs
    → Fits l
    → length xs < fuel
    → n ≡ k + length xs
    → before + length (encode xs) ≤ int_max
    → measure_line fuel (file (encode (xs ++ (l ∷ ys)))) k (pos n) before
      ≡ found (length l + 1, before + length (encode xs))
unfolding measure_line
measure_line-encode xs l ys zero k n before h f lt e le = absurd (omega arith)
measure_line-encode [] l ys (suc fuel) k n before h f lt e le =
    ground (arith, readline-encode l ys f)
measure_line-encode (x ∷ xs) l ys (suc fuel) k n before h f lt e le = ground (
  arith,
  readline-encode x (xs ++ (l ∷ ys)) h.0,
  length-append x (b'\n' ∷ encode xs),
  measure_line-encode xs l ys fuel (k + 1) n (before + (length x + 1)) h.1 f (omega arith)
      (omega arith) (omega (arith, length-append x (b'\n' ∷ encode xs))),
)
