-- ===== src/Config/Load.antt =====
-- Reading a configuration file of lines that fit in the buffer.
use bulletin_board.Base.{
  ℕ, zero, suc, ◌<◌, ◌≡◌, ◌≢◌, refl, sym, ap, ◌∙◌, false, some, List, [], ◌∷◌, ◌++◌, arith, reverse,
  length,
}
use mathlib.Core.List.{reverse-cons}
use bulletin_board.Text.{
  Bytes, c_str, tokenize, tokens_from, flush, trim, ltrim, rtrim, is_whitespace, is_empty,
}
use bulletin_board.Text.Lines.{IsPlain, IsLine, IsLine-append, IsLine-HasNoNul, c_str_lem}
use bulletin_board.Text.Tokens.{IsWord, tokenize_two, tokenize-tokens_from, tokens_from-cons}
use bulletin_board.LineReader.{file}
use bulletin_board.LineReader.Files.{readline-end}
use bulletin_board.BoardFile.Loops.{rounds_for}
use bulletin_board.BoardFile.Lines.{encode, AllFit, length-le-encode, readline-encode}
use bulletin_board.Config.{
  Parameters, Loaded, loaded, crashed, after, key_and_value, is_blank, apply_line, buffer_size,
  read_parameters, read_configuration, look_in_line, or_else, find_key, read_key,
}

-- The lines one after the other.
abbrev pub apply_lines : List Bytes → Parameters → Loaded Parameters
apply_lines [] p = loaded p
apply_lines (l ∷ ls) p = after (apply_line l p) (apply_lines ls)

after-ap :
    (r : Loaded Parameters) (f g : Parameters → Loaded Parameters)
    → ((p : Parameters) → f p ≡ g p)
    → after r f ≡ after r g
after-ap (loaded p) f g h = h p
after-ap Loaded.endless f g h = refl
after-ap crashed f g h = refl

read_parameters-encode :
    (ls : List Bytes) (fuel : ℕ) (buffer : Bytes) (p : Parameters)
    → AllFit ls
    → length ls < fuel
    → read_parameters fuel (file (encode ls)) buffer p ≡ apply_lines ls p
unfolding read_parameters
read_parameters-encode ls zero buffer p h lt = absurd (omega arith)
read_parameters-encode [] (suc fuel) buffer p h lt =
    ground (arith, readline-end buffer_size (omega arith))
read_parameters-encode (l ∷ ls) (suc fuel) buffer p h lt =
    ground (arith, readline-encode l ls h.0)
    ∙ after-ap (apply_line l p) (read_parameters fuel (file (encode ls)) l) (apply_lines ls)
        (λ q. read_parameters-encode ls fuel l q h.1 (omega arith))

-- On a file of lines that fit in the buffer the loop ends, with each line applied once and in order.
pub read_configuration-encode :
    (ls : List Bytes) (p : Parameters)
    → AllFit ls
    → read_configuration (some (encode ls)) p ≡ apply_lines ls p
unfolding read_configuration
read_configuration-encode ls p h =
    read_parameters-encode ls (rounds_for (encode ls)) [] p h (omega (arith, length-le-encode ls))

-- The first of the lines that has the key, with the lines before it looked into.
abbrev pub find_in_lines : Bytes → List Bytes → Bytes → Loaded Bytes
find_in_lines wanted [] default' = loaded default'
find_in_lines wanted (l ∷ ls) default' =
    after (look_in_line wanted l) (λ v. or_else v (find_in_lines wanted ls default'))

find_key-encode :
    (ls : List Bytes) (fuel : ℕ) (buffer wanted default' : Bytes)
    → AllFit ls
    → length ls < fuel
    → find_key fuel (file (encode ls)) buffer wanted default' ≡ find_in_lines wanted ls default'
unfolding find_key
find_key-encode ls zero buffer wanted default' h lt = absurd (omega arith)
find_key-encode [] (suc fuel) buffer wanted default' h lt =
    ground (arith, readline-end buffer_size (omega arith))
find_key-encode (l ∷ ls) (suc fuel) buffer wanted default' h lt =
    ground (arith, readline-encode l ls h.0, find_key-encode ls fuel l wanted default' h.1)

pub read_key-encode :
    (ls : List Bytes) (wanted default' : Bytes)
    → AllFit ls
    → read_key wanted (some (encode ls)) default' ≡ find_in_lines wanted ls default'
unfolding read_key
read_key-encode ls wanted default' h =
    find_key-encode ls (rounds_for (encode ls)) [] wanted default' h
      (omega (arith, length-le-encode ls))

-- A line that starts with a byte that is no blank is not skipped.
ltrim-append : (s : Bytes) (c : ℕ) → is_whitespace c ≡ false → ltrim (s ++ (c ∷ [])) ≢ []
unfolding ltrim
ltrim-append [] c h = ground arith
ltrim-append (x ∷ s) c h = ground (arith, ltrim-append s c h)

is_empty-reverse : (s : Bytes) → s ≢ [] → is_empty (reverse s) ≡ false
is_empty-reverse [] h = absurd (h refl)
is_empty-reverse (c ∷ s) h = ap is_empty (reverse-cons c s) ∙ last (reverse s)
  where
    last : (xs : Bytes) → is_empty (xs ++ (c ∷ [])) ≡ false
    last [] = refl
    last (x ∷ xs) = refl

is_blank-cons :
    (c : ℕ) (s : Bytes) → IsLine (c ∷ s) → is_whitespace c ≡ false → is_blank (c ∷ s) ≡ false
unfolding is_blank trim rtrim
is_blank-cons c s l h =
    let text : c_str (c ∷ s) ≡ c ∷ s = c_str_lem (c ∷ s) (IsLine-HasNoNul (c ∷ s) l) in
    let left : ltrim (c ∷ s) ≡ c ∷ s = unfold ltrim in ground (arith, h) in
    ap (λ t. is_empty (reverse (ltrim (reverse t)))) (ap ltrim text ∙ left)
    ∙ is_empty-reverse (ltrim (reverse (c ∷ s)))
        (λ e. ltrim-append (reverse s) c h (ap ltrim (sym (reverse-cons c s)) ∙ e))

-- A line `key=value` is not skipped, and has these two tokens.
pub key_and_value_line :
    (c : ℕ) (key value : Bytes)
    → is_whitespace c ≡ false
    → IsLine (c ∷ key)
    → IsLine value
    → IsWord b'=' (c ∷ key)
    → IsWord b'=' value
    → (is_blank ((c ∷ key) ++ (b'=' ∷ value)) ≡ false)
      × (tokenize ((c ∷ key) ++ (b'=' ∷ value)) b'=' ≡ (c ∷ key) ∷ value ∷ [])
key_and_value_line c key value h lk lv wk wv =
    let l : IsLine ((c ∷ key) ++ (b'=' ∷ value)) =
      IsLine-append (c ∷ key) (b'=' ∷ value) lk (equals, lv) in
    (
      is_blank-cons c (key ++ (b'=' ∷ value)) l h,
      tokenize_two b'=' (c ∷ key) value (IsLine-HasNoNul ((c ∷ key) ++ (b'=' ∷ value)) l) wk wv,
    )
  where
    equals : IsPlain b'='
    equals = omega arith

-- A line of a key with nothing behind its '=' takes the process down: `keyValuePair[1]` is missing.
pub apply_line-no_value :
    (c : ℕ) (key : Bytes) (p : Parameters)
    → is_whitespace c ≡ false
    → IsLine (c ∷ key)
    → IsWord b'=' (c ∷ key)
    → apply_line ((c ∷ key) ++ (b'=' ∷ [])) p ≡ crashed
unfolding apply_line key_and_value
apply_line-no_value c key p h lk wk =
    let text : Bytes = (c ∷ key) ++ (b'=' ∷ []) in
    let l : IsLine text = IsLine-append (c ∷ key) (b'=' ∷ []) lk (equals, tt) in
    let tokens : tokenize text b'=' ≡ (c ∷ key) ∷ [] =
      tokenize-tokens_from text b'=' (IsLine-HasNoNul text l)
      ∙ tokens_from-cons b'=' (c ∷ key) [] wk
      ∙ unfold tokens_from flush in refl in
    ground (arith, is_blank-cons c (key ++ (b'=' ∷ [])) l h, tokens)
  where
    equals : IsPlain b'='
    equals = omega arith
