-- ===== src/Text/Lines.antt =====
-- Texts with no byte that ends a line or a C string, and what the formatters make of them.
use bulletin_board.Base.{
  ℕ, zero, suc, ◌+◌, ◌-◌, ◌/◌, ◌%◌, ◌<◌, ◌≡◌, ◌≢◌, refl, ap, ◌∙◌, [], ◌∷◌, ◌++◌, arith, length,
  take, take-all,
}
use bulletin_board.Base.Int.{ℤ, pos, negsuc}
use bulletin_board.Text.{Bytes, c_str, print_int, snprintf}
use bulletin_board.Text.Decimal.{digits, to_string}

-- A byte that neither ends a line nor a C string.
abbrev pub IsPlain : ℕ → Type 0
IsPlain c = (c ≢ 0) × (c ≢ b'\n') × (c ≢ b'\r')

abbrev pub IsLine : Bytes → Type 0
IsLine [] = Unit
IsLine (c ∷ s) = IsPlain c × IsLine s

abbrev pub HasNoNul : Bytes → Type 0
HasNoNul [] = Unit
HasNoNul (c ∷ s) = (c ≢ 0) × HasNoNul s

pub IsLine-append : (xs ys : Bytes) → IsLine xs → IsLine ys → IsLine (xs ++ ys)
IsLine-append [] ys h k = k
IsLine-append (x ∷ xs) ys h k = (h.0, IsLine-append xs ys h.1 k)

pub IsLine-HasNoNul : (s : Bytes) → IsLine s → HasNoNul s
IsLine-HasNoNul [] h = tt
IsLine-HasNoNul (c ∷ s) h = (h.0.0, IsLine-HasNoNul s h.1)

pub HasNoNul-append : (xs ys : Bytes) → HasNoNul xs → HasNoNul ys → HasNoNul (xs ++ ys)
HasNoNul-append [] ys h k = k
HasNoNul-append (x ∷ xs) ys h k = (h.0, HasNoNul-append xs ys h.1 k)

pub HasNoNul-take : (n : ℕ) (s : Bytes) → HasNoNul s → HasNoNul (take n s)
HasNoNul-take zero s h = tt
HasNoNul-take (suc n) [] h = tt
HasNoNul-take (suc n) (c ∷ s) h = (h.0, HasNoNul-take n s h.1)

pub c_str_lem : (s : Bytes) → HasNoNul s → c_str s ≡ s
unfolding c_str
c_str_lem [] h = refl
c_str_lem (c ∷ s) h = ground (arith, c_str_lem s h.1)

digits-IsLine : (fuel n : ℕ) (rest : Bytes) → IsLine rest → IsLine (digits fuel n rest)
unfolding digits
digits-IsLine zero n rest h = h
digits-IsLine (suc fuel) n rest h =
    ground (arith, digits-IsLine fuel (n / 10) ((b'0' + n % 10) ∷ rest))

pub to_string-IsLine : (n : ℕ) → IsLine (to_string n)
unfolding to_string
to_string-IsLine n = digits-IsLine (suc n) n [] tt

pub print_int-IsLine : (n : ℤ) → IsLine (print_int n)
unfolding print_int
print_int-IsLine (pos n) = to_string-IsLine n
print_int-IsLine (negsuc n) = (ground arith, to_string-IsLine (suc n))

-- Nothing is cut from an output that fits.
pub c_str-snprintf :
    (size : ℕ) (s : Bytes) → HasNoNul s → length s < size → c_str (snprintf size s) ≡ s
unfolding snprintf
c_str-snprintf size s h lt = ap c_str (take-all (size - 1) s (omega arith)) ∙ c_str_lem s h
