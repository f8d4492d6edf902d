-- ===== src/Text.antt =====
-- utilities.cpp: C strings, tokens, trimming, numbers and the two message formatters. A text is the
-- list of its bytes; a `char` buffer that holds a C string is cut at its first NUL by `c_str`.
pub mod Decimal
pub mod Lines
pub mod Tokens
pub mod Numbers
use Prim.Native.Char.{code}
use Prim.Native.String.{String}
use bulletin_board.Base.{
  ℕ, zero, suc, ◌+◌, ◌-◌, ◌/◌, ◌%◌, Bool, true, false, not, ◌&&◌, ◌||◌, Option, none, some, List,
  [], ◌∷◌, ◌++◌, leb, ltb, ◌==◌, if◌then◌else◌, length, take, reverse,
}
use bulletin_board.Base.Int.{ℤ, pos, negsuc}
use bulletin_board.Text.Decimal.{to_string, is_digit, decimal}

abbrev pub Bytes : Type 0
Bytes = List ℕ

-- The bytes of an ASCII literal.
abbrev pub codes : String → Bytes
codes String.[] = []
codes (String.◌∷◌ c s) = code c ∷ codes s

-- The C string that a buffer holds: what stands before the first NUL.
unfoldable pub c_str : Bytes → Bytes
c_str [] = []
c_str (c ∷ s) = elim (c == 0) [ true ↦ [] | false ↦ c ∷ c_str s ]

-- `operator==` of std::string
unfoldable pub str_eq : Bytes → Bytes → Bool
str_eq [] [] = true
str_eq (x ∷ xs) (y ∷ ys) = x == y && str_eq xs ys
str_eq _ _ = false

-- A token is stored when it is not empty: strtok_r never returns an empty one.
unfoldable pub flush : Bytes → List Bytes → List Bytes
flush [] tokens = tokens
flush (c ∷ s) tokens = (c ∷ s) ∷ tokens

-- The loop of `tokenize`; `token` holds the bytes of the token that strtok_r is scanning.
unfoldable pub tokens_from : ℕ → Bytes → Bytes → List Bytes
unfolding flush
tokens_from delim token [] = flush token []
tokens_from delim token (c ∷ s) = elim (c == delim) [
  | true ↦ flush token (tokens_from delim [] s)
  | false ↦ tokens_from delim (token ++ c ∷ []) s
]

-- `tokenize(str, delim)`, for the one-character delimiters that the program uses
unfoldable pub tokenize : Bytes → ℕ → List Bytes
unfolding tokens_from c_str
tokenize s delim = tokens_from delim [] (c_str s)

-- `count(s.begin(), s.end(), c)`
unfoldable pub count : ℕ → Bytes → ℕ
count c [] = 0
count c (x ∷ s) = (if x == c then 1 else 0) + count c s

-- `s.find(c) != npos`
unfoldable pub contains : ℕ → Bytes → Bool
contains c [] = false
contains c (x ∷ s) = x == c || contains c s

-- whether `s` begins with `p`
unfoldable pub starts_with : Bytes → Bytes → Bool
starts_with [] s = true
starts_with (x ∷ p) [] = false
starts_with (x ∷ p) (y ∷ s) = x == y && starts_with p s

-- `s.find(p) != npos`
unfoldable pub has_infix : Bytes → Bytes → Bool
unfolding starts_with
has_infix p [] = starts_with p []
has_infix p (x ∷ s) = starts_with p (x ∷ s) || has_infix p s

-- `s.empty()`
abbrev pub is_empty : Bytes → Bool
is_empty [] = true
is_empty _ = false

-- `const std::string WHITESPACE`
unfoldable pub is_whitespace : ℕ → Bool
is_whitespace c = c == b' ' || c == b'\n' || c == b'\r' || c == b'\t' || c == 12 || c == 11

unfoldable pub ltrim : Bytes → Bytes
unfolding is_whitespace
ltrim [] = []
ltrim (c ∷ s) = elim (is_whitespace c) [ true ↦ ltrim s | false ↦ c ∷ s ]

-- `s.substr(0, end + 1)`, with `end` the last position that is not blank
unfoldable pub rtrim : Bytes → Bytes
unfolding ltrim
rtrim s = reverse (ltrim (reverse s))

unfoldable pub trim : Bytes → Bytes
unfolding ltrim rtrim
trim s = rtrim (ltrim s)

unfoldable pub is_true : Bytes → Bool
unfolding str_eq
is_true value = str_eq value (codes "1") || str_eq value (codes "true")

-- the loop of `is_number`, to the end of the text or the first byte that is no digit
unfoldable pub all_digits : Bytes → Bool
all_digits [] = true
all_digits (c ∷ s) = is_digit c && all_digits s

unfoldable pub is_number : Bytes → Bool
unfolding all_digits
is_number [] = false
is_number (c ∷ s) = all_digits (c ∷ s)

-- `std::stoi`: leading blanks, a sign, then digits; `none` is a thrown exception, for a text with
-- no number in front and for a number that is no 32-bit `int`.
to_int : Bool → Bytes → Option ℤ
unfolding is_digit decimal
to_int negative [] = none
to_int negative (c ∷ s) =
    let n = decimal 0 (c ∷ s) in
    if not (is_digit c)
    then none
    else if negative
    then (if leb n 2147483648 then some (negate n) else none)
    else if leb n 2147483647
    then some (pos n)
    else none
  where
    negate : ℕ → ℤ
    negate zero = pos 0
    negate (suc n) = negsuc n

signed : Bytes → Option ℤ
unfolding to_int
signed [] = none
signed (c ∷ s) =
    if c == b'-' then to_int true s else if c == b'+' then to_int false s else to_int false (c ∷ s)

unfoldable pub stoi : Bytes → Option ℤ
unfolding signed ltrim
stoi s = signed (ltrim s)

-- `%d`
unfoldable pub print_int : ℤ → Bytes
unfolding to_string
print_int (pos n) = to_string n
print_int (negsuc n) = b'-' ∷ to_string (suc n)

-- `snprintf(buffer, size, ...)` of an output: at most `size - 1` bytes and a NUL are stored.
unfoldable pub snprintf : ℕ → Bytes → Bytes
snprintf size s = take (size - 1) s

-- `%2.1f` of a code with one decimal, given in tenths: 3.2 is 32.
unfoldable pub print_code : ℕ → Bytes
unfolding to_string
print_code tenths = to_string (tenths / 10) ++ (b'.' ∷ to_string (tenths % 10))

unfoldable pub create_message : ℕ → Bytes → Bytes → Bool → Bytes
unfolding snprintf print_code c_str
create_message code response_text additional_info newline = c_str (
    snprintf 255 (
      print_code code
      ++ (b' '
          ∷ (response_text ++ (b' ' ∷ (additional_info ++ (if newline then b'\n' ∷ [] else [])))))))

-- The bytes that `sendMessageToSocket` hands to send().
unfoldable pub socket_message : ℕ → Bytes → Bytes → Bytes
unfolding snprintf print_code c_str
socket_message code response_text additional_info = c_str (
    snprintf 255
      (print_code code ++ (b' ' ∷ (response_text ++ (b' ' ∷ (additional_info ++ (b'\n' ∷ [])))))))

-- `joinTwoStringsWithDelimiter`: at most 254 bytes, whatever was allocated
unfoldable pub join_two_strings_with_delimiter : Bytes → Bytes → ℕ → Bytes
unfolding snprintf
join_two_strings_with_delimiter a b delimiter = snprintf 255 (a ++ (delimiter ∷ b))
