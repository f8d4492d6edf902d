-- ===== src/BoardFile/Accepts.antt =====
-- The check of REPLACE's argument accepts what a client means to write.
use bulletin_board.Base.{
  ℕ, ◌+◌, ◌≤◌, ◌<◌, ◌≡◌, ◌≢◌, refl, sym, ap, ◌∙◌, true, false, some, List, [], ◌∷◌, ◌++◌, inl,
  arith,
}
use bulletin_board.Base.Int.{pos}
use bulletin_board.Text.{Bytes, tokenize, print_int, count}
use bulletin_board.Text.Lines.{IsLine}
use bulletin_board.Text.Tokens.{IsWord, IsFreeOf, print_int-IsWord}
use bulletin_board.Text.Numbers.{is_number-to_string}
use bulletin_board.Store.{Store, done}
use bulletin_board.BoardFile.{
  replace_arguments, has_bad_format, is_unknown, check_number, are_replace_arguments_valid,
}
use bulletin_board.BoardFile.Arguments.{argument, replace_arguments_lem, argument_tokens}

count-append : (c : ℕ) (xs ys : Bytes) → count c (xs ++ ys) ≡ count c xs + count c ys
unfolding count
count-append c [] ys = omega arith
count-append c (x ∷ xs) ys = ground (arith, count-append c xs ys)

count-IsFreeOf : (c : ℕ) (xs : Bytes) → IsFreeOf c xs → count c xs ≡ 0
unfolding count
count-IsFreeOf c [] h = refl
count-IsFreeOf c (x ∷ xs) h = ground (arith, count-IsFreeOf c xs h.1)

count-argument :
    (n : ℕ) (message : Bytes) → IsWord b'/' message → count b'/' (argument n message) ≡ 1
unfolding count
count-argument n message w = ground (
  arith,
  count-append b'/' (print_int (pos n)) (b'/' ∷ message),
  count-IsFreeOf b'/' (print_int (pos n)) (print_int-IsWord b'/' n (inl (omega arith))).1,
  count-IsFreeOf b'/' message w.1,
)

has_bad_format-argument :
    (n : ℕ) (message text : Bytes)
    → message ≢ []
    → count b'/' text ≡ 1
    → has_bad_format (print_int (pos n) ∷ message ∷ []) text ≡ false
unfolding has_bad_format print_int
has_bad_format-argument n [] text ne e = absurd (ne refl)
has_bad_format-argument n (c ∷ m) text ne e = ground (arith, is_number-to_string n)

accepts :
    (text : Bytes) (tokens : List Bytes) (n : ℕ) (m : Bytes) (s : Store)
    → tokenize text b'/' ≡ tokens
    → has_bad_format tokens text ≡ false
    → replace_arguments tokens ≡ some (pos n, m)
    → n < s.message_number
    → are_replace_arguments_valid text s ≡ done (true, []) s
unfolding are_replace_arguments_valid check_number is_unknown
accepts text tokens n m s t good parsed known = ground (arith, t, good, parsed, known)

-- The check accepts the number of a message of the board, as far as it fits in an `int`, with a
-- message that is not empty and holds no '/', and changes nothing.
pub are_replace_arguments_valid_complete :
    (n : ℕ) (message : Bytes) (s : Store)
    → n ≤ 2147483647
    → IsLine message
    → IsWord b'/' message
    → n < s.message_number
    → are_replace_arguments_valid (argument n message) s ≡ done (true, []) s
are_replace_arguments_valid_complete n message s small m w known =
    let text = argument n message in
    let tokens = argument_tokens n message m w in
    accepts text (print_int (pos n) ∷ message ∷ []) n message s tokens
      (has_bad_format-argument n message text w.0 (count-argument n message w))
      (sym (ap replace_arguments tokens) ∙ replace_arguments_lem n message small m w) known
