-- ===== src/Text/Decimal.antt =====
-- Decimal numerals: std::to_string and `%d` of a count, and the digits that stoi reads.
use bulletin_board.Base.{
  ℕ, zero, suc, ◌+◌, ◌-◌, ◌*◌, ◌/◌, ◌%◌, ◌≡◌, refl, Bool, true, false, ◌&&◌, List, [], ◌∷◌, leb,
  ltb, if◌then◌else◌,
}

unfoldable pub is_digit : ℕ → Bool
is_digit c = leb b'0' c && leb c b'9'

-- The digits of `n` in front of `rest`; each round strips one digit, so `suc n` rounds suffice.
unfoldable pub digits : ℕ → ℕ → List ℕ → List ℕ
digits zero n rest = rest
digits (suc fuel) n rest =
    let next = digits fuel (n / 10) ((b'0' + n % 10) ∷ rest) in
    if ltb n 10 then (b'0' + n) ∷ rest else next

unfoldable pub to_string : ℕ → List ℕ
unfolding digits
to_string n = digits (suc n) n []

-- The value of the leading digits, read onto `acc`, as strtol reads them.
unfoldable pub decimal : ℕ → List ℕ → ℕ
unfolding is_digit
decimal acc [] = acc
decimal acc (c ∷ s) = elim (is_digit c) [ true ↦ decimal (acc * 10 + (c - b'0')) s | false ↦ acc ]

to_string_test : to_string 1205 ≡ b'1' ∷ b'2' ∷ b'0' ∷ b'5' ∷ []
unfolding to_string
to_string_test = refl
