-- ===== src/SyncServer/Requests.antt =====
-- How the slave reads the messages of the master: the tokens that it finds in what it receives.
use bulletin_board.Base.{
  ℕ, zero, suc, ◌+◌, ◌-◌, ◌<◌, ◌≡◌, ◌≢◌, refl, ap, ◌∙◌, some, List, [], ◌∷◌, ◌++◌, arith, length,
  length-append, get_elem?, set, append_assoc,
}
use bulletin_board.Text.{
  Bytes, codes, c_str, tokenize, tokens_from, socket_message, print_code, snprintf,
}
use bulletin_board.Text.Lines.{
  IsLine, IsLine-append, IsLine-HasNoNul, IsPlain, HasNoNul-append, c_str-snprintf,
}
use bulletin_board.Text.Tokens.{IsWord, tokens_from-cons}
use bulletin_board.SyncServer.{terminate}

set-seam : (n : ℕ) (s : Bytes) (c d : ℕ) → n ≡ length s → set (s ++ (c ∷ [])) n d ≡ s ++ (d ∷ [])
set-seam zero [] c d e = refl
set-seam zero (x ∷ s) c d e = absurd (omega arith)
set-seam (suc n) [] c d e = absurd (omega arith)
set-seam (suc n) (x ∷ s) c d e = ap (◌∷◌ x) (set-seam n s c d (omega arith))

-- The byte in front of the last one of a line is no carriage return.
get_elem?-IsLine :
    (n : ℕ) (s : Bytes) (d : ℕ)
    → IsLine s
    → suc n ≡ length s
    → (c : ℕ) × (get_elem? (s ++ (d ∷ [])) n ≡ some c) × (c ≢ b'\r')
get_elem?-IsLine n [] d h e = absurd (omega arith)
get_elem?-IsLine zero (c ∷ s) d h e = (c, refl, h.0.2)
get_elem?-IsLine (suc n) (c ∷ s) d h e = get_elem?-IsLine n s d h.1 (omega arith)

c_str-nul : (s : Bytes) → IsLine s → c_str (s ++ (0 ∷ [])) ≡ s
unfolding c_str
c_str-nul [] h = refl
c_str-nul (c ∷ s) h = ground (arith, c_str-nul s h.1)

terminate_of :
    (chunk cut : Bytes) (n m c : ℕ)
    → length chunk ≡ suc n
    → n ≡ suc m
    → set chunk n 0 ≡ cut
    → get_elem? cut m ≡ some c
    → c ≢ b'\r'
    → terminate chunk ≡ some cut
unfolding terminate
terminate_of chunk cut n m c e k cuts at ne =
    let last : length chunk - 1 ≡ n = omega arith in
    let before : length chunk - 2 ≡ m = omega arith in ground arith

-- The newline behind a message is replaced by the NUL that ends the request.
terminate_line :
    (s : Bytes) → IsLine s → 0 < length s → terminate (s ++ (b'\n' ∷ [])) ≡ some (s ++ (0 ∷ []))
unfolding terminate
terminate_line s h lt =
    let (c, at, ne) = get_elem?-IsLine (length s - 1) s 0 h (omega arith) in
    terminate_of (s ++ (b'\n' ∷ [])) (s ++ (0 ∷ [])) (length s) (length s - 1) c
      (omega (arith, length-append s (b'\n' ∷ []))) (omega arith)
      (set-seam (length s) s b'\n' 0 refl) at ne

pub request_tokens :
    (s : Bytes)
    → IsLine s
    → 0 < length s
    → (q : Bytes) × (terminate (s ++ (b'\n' ∷ [])) ≡ some q)
      × (tokenize q b' ' ≡ tokens_from b' ' [] s)
unfolding tokenize
request_tokens s h lt =
    (s ++ (0 ∷ []), terminate_line s h lt, ap (tokens_from b' ' []) (c_str-nul s h))

-- A message of the master without its newline.
abbrev pub message : Bytes → Bytes → Bytes
message name info = print_code 50 ++ (b' ' ∷ (name ++ (b' ' ∷ info)))

message-IsLine : (name info : Bytes) → IsLine name → IsLine info → IsLine (message name info)
unfolding print_code
message-IsLine name info hn hi =
    IsLine-append (codes "5.0 ") (name ++ (b' ' ∷ info)) head
      (IsLine-append name (b' ' ∷ info) hn (blank, hi))
  where
    blank : IsPlain b' '
    blank = omega arith

    head : IsLine (codes "5.0 ")
    head = omega arith

-- A message that fits in the buffer is sent whole.
pub socket_message_lem :
    (name info : Bytes)
    → IsLine name
    → IsLine info
    → length name + length info < 249
    → socket_message 50 name info ≡ message name info ++ (b'\n' ∷ [])
unfolding socket_message print_code
socket_message_lem name info hn hi lt =
    ap (λ l. c_str (snprintf 255 l)) assembled
    ∙ c_str-snprintf 255 (message name info ++ (b'\n' ∷ []))
        (HasNoNul-append (message name info) (b'\n' ∷ [])
          (IsLine-HasNoNul (message name info) (message-IsLine name info hn hi)) (newline, tt))
        (omega
          (arith, length-append (message name info) (b'\n' ∷ []), length-append name (b' ' ∷ info)))
  where
    assembled :
        print_code 50 ++ (b' ' ∷ (name ++ (b' ' ∷ (info ++ (b'\n' ∷ [])))))
        ≡ message name info ++ (b'\n' ∷ [])
    assembled = simp append_assoc

    newline : ¬ (◌≡◌ {A = ℕ} b'\n' 0)
    newline = omega arith

-- What the slave finds in a message of the master: the code, the name, and the words of the rest.
pub record Parsed (chunk name : Bytes) (arguments : List Bytes) : Type 0 where
  pub request : Bytes
  pub terminated : terminate chunk ≡ some request
  pub tokens : tokenize request b' ' ≡ print_code 50 ∷ name ∷ arguments

pub Parsed-message :
    (name info : Bytes)
    → IsLine name
    → IsLine info
    → IsWord b' ' name
    → length name + length info < 249
    → Parsed (socket_message 50 name info) name (tokens_from b' ' [] info)
unfolding print_code
Parsed-message name info hn hi wn lt =
    let line : Bytes = message name info in
    let sent = socket_message_lem name info hn hi lt in
    let (q, t, tokens) = request_tokens line (message-IsLine name info hn hi) (omega arith) in
    record {
      request = q;
      terminated = ap terminate sent ∙ t;
      tokens =
          tokens
          ∙ tokens_from-cons b' ' (codes "5.0") (name ++ (b' ' ∷ info)) code
          ∙ ap (◌∷◌ (codes "5.0")) (tokens_from-cons b' ' name info wn);
    }
  where
    code : IsWord b' ' (codes "5.0")
    code = (ground arith, omega arith)
