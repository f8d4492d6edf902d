-- ===== src/LineReader/Files.antt =====
-- Reading a line of a file: what a call returns, what it leaves, and how much it consumes.
use bulletin_board.Base.{
  ℕ, zero, suc, ◌<◌, ◌≡◌, refl, Bool, true, false, [], ◌∷◌, ◌++◌, append_assoc, append-nil, arith,
  length,
}
use bulletin_board.Text.{Bytes}
use bulletin_board.Text.Lines.{IsLine}
use bulletin_board.LineReader.{file, exhausted, line, fill, readline}

fill-IsLine :
    (l buf rest : Bytes) (rounds : ℕ) (begin : Bool)
    → IsLine l
    → length l < rounds
    → fill rounds begin buf (file (l ++ (b'\n' ∷ rest)))
      ≡ record { outcome = line (buf ++ l); residue = 0; rest = file rest }
unfolding fill
fill-IsLine l buf rest zero begin h lt = absurd (omega arith)
fill-IsLine [] buf rest (suc rounds) begin h lt = rw append-nil
fill-IsLine (c ∷ l) buf rest (suc rounds) begin h lt =
    ground (arith, fill-IsLine l (buf ++ c ∷ []) rest rounds false, append_assoc buf (c ∷ []) l)

-- A line of a file that is shorter than `max` and holds no terminator is returned whole, and its
-- newline and nothing more is consumed.
pub readline-IsLine :
    (l rest : Bytes) (max : ℕ)
    → IsLine l
    → length l < max
    → readline (file (l ++ (b'\n' ∷ rest))) max
      ≡ record { outcome = line l; residue = 0; rest = file rest }
unfolding readline
readline-IsLine l rest max h lt = fill-IsLine l [] rest max true h lt

pub readline-end :
    (max : ℕ)
    → 0 < max
    → readline (file []) max ≡ record { outcome = exhausted; residue = 0; rest = file [] }
unfolding readline
readline-end zero lt = absurd (omega arith)
readline-end (suc max) lt = refl
