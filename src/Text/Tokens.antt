-- ===== src/Text/Tokens.antt =====
-- Splitting a text at its delimiters gives back the words that it was joined from.
use bulletin_board.Base.{
  ℕ, zero, suc, ◌+◌, ◌/◌, ◌%◌, ◌<◌, ◌≡◌, ◌≢◌, ◌⊎◌, refl, ap, ◌∙◌, List, [], ◌∷◌, ◌++◌, append_assoc,
  append-nil, arith,
}
use bulletin_board.Base.Int.{pos}
use bulletin_board.Text.{Bytes, print_int, flush, tokens_from, tokenize}
use bulletin_board.Text.Lines.{HasNoNul, c_str_lem}
use bulletin_board.Text.Decimal.{digits, to_string}

-- A text in which the delimiter does not stand.
abbrev pub IsFreeOf : ℕ → Bytes → Type 0
IsFreeOf delim [] = Unit
IsFreeOf delim (c ∷ s) = (c ≢ delim) × IsFreeOf delim s

-- A token: not empty, and without the delimiter.
abbrev pub IsWord : ℕ → Bytes → Type 0
IsWord delim s = (s ≢ []) × IsFreeOf delim s

pub IsFreeOf-append :
    (d : ℕ) (xs ys : Bytes) → IsFreeOf d xs → IsFreeOf d ys → IsFreeOf d (xs ++ ys)
IsFreeOf-append d [] ys h k = k
IsFreeOf-append d (x ∷ xs) ys h k = (h.0, IsFreeOf-append d xs ys h.1 k)

tokens_from-word :
    (d : ℕ) (w token rest : Bytes)
    → IsFreeOf d w
    → tokens_from d token (w ++ (d ∷ rest)) ≡ flush (token ++ w) (tokens_from d [] rest)
unfolding tokens_from
tokens_from-word d [] token rest h = ground (arith, append-nil token)
tokens_from-word d (c ∷ w) token rest h =
    ground (arith, tokens_from-word d w (token ++ c ∷ []) rest h.1, append_assoc token (c ∷ []) w)

tokens_from-last :
    (d : ℕ) (w token : Bytes) → IsFreeOf d w → tokens_from d token w ≡ flush (token ++ w) []
unfolding tokens_from
tokens_from-last d [] token h = ground (arith, append-nil token)
tokens_from-last d (c ∷ w) token h =
    ground (arith, tokens_from-last d w (token ++ c ∷ []) h.1, append_assoc token (c ∷ []) w)

flush-word : (s : Bytes) (tokens : List Bytes) → s ≢ [] → flush s tokens ≡ s ∷ tokens
unfolding flush
flush-word [] tokens h = absurd (h refl)
flush-word (c ∷ s) tokens h = refl

-- The words of `first d second d ...`, whatever comes behind.
pub tokens_from-cons :
    (d : ℕ) (w rest : Bytes)
    → IsWord d w
    → tokens_from d [] (w ++ (d ∷ rest)) ≡ w ∷ tokens_from d [] rest
tokens_from-cons d w rest h =
    tokens_from-word d w [] rest h.1 ∙ flush-word w (tokens_from d [] rest) h.0

pub tokens_from-one : (d : ℕ) (w : Bytes) → IsWord d w → tokens_from d [] w ≡ w ∷ []
tokens_from-one d w h = tokens_from-last d w [] h.1 ∙ flush-word w [] h.0

pub tokenize-tokens_from : (s : Bytes) (d : ℕ) → HasNoNul s → tokenize s d ≡ tokens_from d [] s
unfolding tokenize
tokenize-tokens_from s d h = ap (tokens_from d []) (c_str_lem s h)

-- Two words, and three.
pub tokenize_two :
    (d : ℕ) (a b : Bytes)
    → HasNoNul (a ++ (d ∷ b))
    → IsWord d a
    → IsWord d b
    → tokenize (a ++ (d ∷ b)) d ≡ a ∷ b ∷ []
tokenize_two d a b n ha hb =
    tokenize-tokens_from (a ++ (d ∷ b)) d n
    ∙ tokens_from-cons d a b ha
    ∙ ap (◌∷◌ a) (tokens_from-one d b hb)

digits-IsFreeOf :
    (d : ℕ)
    → (d < b'0') ⊎ (b'9' < d)
    → (fuel n : ℕ) (rest : Bytes) → IsFreeOf d rest
    → IsFreeOf d (digits fuel n rest)
unfolding digits
digits-IsFreeOf d e zero n rest h = h
digits-IsFreeOf d e (suc fuel) n rest h =
    ground (arith, digits-IsFreeOf d e fuel (n / 10) ((b'0' + n % 10) ∷ rest))

digits-ne-nil : (fuel n c : ℕ) (rest : Bytes) → digits fuel n (c ∷ rest) ≢ []
unfolding digits
digits-ne-nil zero n c rest = ground arith
digits-ne-nil (suc fuel) n c rest =
    ground (arith, digits-ne-nil fuel (n / 10) (b'0' + n % 10) (c ∷ rest))

pub to_string-ne-nil : (n : ℕ) → to_string n ≢ []
unfolding to_string digits
to_string-ne-nil n = ground (arith, digits-ne-nil n (n / 10) (b'0' + n % 10) [])

-- A decimal numeral is a word for every delimiter that is no digit.
pub print_int-IsWord : (d n : ℕ) → (d < b'0') ⊎ (b'9' < d) → IsWord d (print_int (pos n))
unfolding print_int to_string
print_int-IsWord d n e = (to_string-ne-nil n, digits-IsFreeOf d e (suc n) n [] tt)
