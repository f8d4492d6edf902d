-- ===== src/Text/Numbers.antt =====
-- Decimal numerals are read back as the numbers that they were printed from.
use bulletin_board.Base.{
  ℕ, zero, suc, ◌+◌, ◌-◌, ◌*◌, ◌/◌, ◌%◌, ◌≤◌, ◌<◌, ◌≡◌, ◌≢◌, refl, true, none, some, [], ◌∷◌, arith,
  leb, if◌then◌else◌,
}
use bulletin_board.Base.Int.{pos}
use bulletin_board.Text.{Bytes, stoi, print_int, all_digits, is_number}
use bulletin_board.Text.Tokens.{to_string-ne-nil}
use bulletin_board.Text.Decimal.{digits, to_string, decimal, is_digit}

decimal-digits :
    (fuel n : ℕ) (rest : Bytes) → n < fuel → decimal 0 (digits fuel n rest) ≡ decimal n rest
unfolding digits decimal
decimal-digits zero n rest h = absurd (omega arith)
decimal-digits (suc fuel) n rest h =
    let again = decimal-digits fuel (n / 10) ((b'0' + n % 10) ∷ rest) in
    let parts : n / 10 * 10 + (b'0' + n % 10 - b'0') ≡ n = omega arith in
    ground (arith, again, parts)

pub decimal-to_string : (n : ℕ) → decimal 0 (to_string n) ≡ n
unfolding to_string decimal
decimal-to_string n = decimal-digits (suc n) n [] (omega arith)

all_digits-digits :
    (fuel n : ℕ) (rest : Bytes) → all_digits rest ≡ true → all_digits (digits fuel n rest) ≡ true
unfolding all_digits digits is_digit
all_digits-digits zero n rest h = h
all_digits-digits (suc fuel) n rest h =
    ground (arith, all_digits-digits fuel (n / 10) ((b'0' + n % 10) ∷ rest))

-- What stoi makes of a text of digits.
pub stoi-is_number :
    (s : Bytes)
    → is_number s ≡ true
    → stoi s ≡ (if leb (decimal 0 s) 2147483647 then some (pos (decimal 0 s)) else none)
unfolding stoi is_number is_digit
stoi-is_number [] h = cc
stoi-is_number (c ∷ s) h = ground arith

pub is_number-to_string : (n : ℕ) → is_number (to_string n) ≡ true
unfolding is_number to_string
is_number-to_string n =
    number (digits (suc n) n []) (to_string-ne-nil n) (all_digits-digits (suc n) n [] refl)
  where
    number : (s : Bytes) → s ≢ [] → all_digits s ≡ true → is_number s ≡ true
    number [] h e = absurd (h refl)
    number (c ∷ s) h e = e

-- A number that fits in an `int` is read back by stoi from the numeral that it is printed as.
pub stoi-print_int : (n : ℕ) → n ≤ 2147483647 → stoi (print_int (pos n)) ≡ some (pos n)
unfolding print_int
stoi-print_int n h =
    ground (arith, stoi-is_number (to_string n) (is_number-to_string n), decimal-to_string n)
