-- ===== src/Disk.antt =====
-- The POSIX calls on an open regular file that file-operations.cpp makes, on the file's bytes.
-- Positions are file offsets; `none` is the -1 of a refused lseek.
use bulletin_board.Base.{
  ℕ, ◌+◌, ◌-◌, ◌≡◌, refl, ap, ◌∙◌, Option, none, some, [], ◌∷◌, ◌++◌, append-nil, append_assoc,
  arith, leb, if◌then◌else◌, length, take, drop, replicate, get_elem?, length-append, take-seam,
  drop-past, take-all, length-replicate, drop_beyond-seam, get_elem?-seam,
}
use bulletin_board.Base.Int.{ℤ, pos, negsuc}
use bulletin_board.Text.{Bytes}

-- `write(fd, s, strlen(s))` at an offset: a gap behind the end is filled with NULs.
unfoldable pub write_at : Bytes → ℕ → Bytes → Bytes
write_at content p [] = content
write_at content p (c ∷ s) =
    take p (content ++ replicate (p - length content) 0)
    ++ ((c ∷ s) ++ drop (p + length (c ∷ s)) content)

-- `ftruncate`, `truncate`; a negative length is refused
unfoldable pub truncate : ℤ → Bytes → Bytes
truncate (pos n) content = take n content ++ replicate (n - length content) 0
truncate (negsuc n) content = content

-- `lseek(fd, -back, ...)` from the offset `p`, which is the end of the file for SEEK_END
unfoldable pub seek_back : ℕ → ℕ → Option ℕ
seek_back p back = if leb back p then some (p - back) else none

-- `read(fd, buffer, 1)` into a zeroed buffer: the byte, and the offset behind it
unfoldable pub read_at : Bytes → ℕ → ℕ × ℕ
read_at content p = elim (get_elem? content p) [ none ↦ (0, p) | some c ↦ (c, p + 1) ]

-- A write inside the file, or at its end, replaces as many bytes as it stores.
pub write_at-seam :
    (p : ℕ) (xs ys s : Bytes)
    → p ≡ length xs
    → write_at (xs ++ ys) p s ≡ xs ++ (s ++ drop (length s) ys)
unfolding write_at
write_at-seam p xs ys [] e = refl
write_at-seam p xs ys (c ∷ s) e =
    let padding = replicate {A = ℕ} (p - length (xs ++ ys)) 0 in
    ap (λ l. l ++ ((c ∷ s) ++ drop (p + length (c ∷ s)) (xs ++ ys)))
      (ap (take p) (append_assoc xs ys padding) ∙ take-seam p xs (ys ++ padding) e)
    ∙ ap (λ l. xs ++ ((c ∷ s) ++ l)) (drop_beyond-seam p (length (c ∷ s)) xs ys e)

-- A write behind the end fills the gap.
pub write_at-past :
    (p n : ℕ) (xs : Bytes) (c : ℕ) (s : Bytes)
    → p ≡ length xs + n
    → write_at xs p (c ∷ s) ≡ xs ++ (replicate n 0 ++ (c ∷ s))
unfolding write_at
write_at-past p n xs c s e =
    let gap : p - length xs ≡ n = omega arith in
    rw gap (
      ap (λ l. l ++ ((c ∷ s) ++ drop (p + length (c ∷ s)) xs))
        (take-all p (xs ++ replicate n 0)
          (omega (arith, length-append xs (replicate n 0), length-replicate {A = ℕ} n 0)))
      ∙ ap (λ l. (xs ++ replicate n 0) ++ ((c ∷ s) ++ l))
          (drop-past (p + length (c ∷ s)) xs (omega arith))
      ∙ simp (append-nil, append_assoc))

pub truncate-seam : (n : ℕ) (xs ys : Bytes) → n ≡ length xs → truncate (pos n) (xs ++ ys) ≡ xs
unfolding truncate
truncate-seam n xs ys e =
    let within : n - length (xs ++ ys) ≡ 0 = omega (arith, length-append xs ys) in
    rw within (rw append-nil (take-seam n xs ys e))

pub read_at-seam :
    (p : ℕ) (xs : Bytes) (c : ℕ) (ys : Bytes)
    → p ≡ length xs
    → read_at (xs ++ (c ∷ ys)) p ≡ (c, p + 1)
unfolding read_at
read_at-seam p xs c ys e = rw (get_elem?-seam p xs c ys e, read_at)
