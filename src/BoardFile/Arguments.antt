-- ===== src/BoardFile/Arguments.antt =====
-- The argument of REPLACE: what the check on the master accepts, replaceOperation can carry out.
use bulletin_board.Base.{
  ℕ, ◌≤◌, ◌<◌, ◌≡◌, ◌≢◌, refl, ap, ◌∙◌, Bool, true, false, Option, none, some, List, [], ◌∷◌, ◌++◌,
  inl, arith, if◌then◌else◌, length,
}
use bulletin_board.Base.Int.{ℤ, pos, negsuc}
use bulletin_board.Text.{Bytes, tokenize, print_int, count}
use bulletin_board.Text.Lines.{IsLine, IsLine-append, IsLine-HasNoNul, print_int-IsLine, IsPlain}
use bulletin_board.Text.Tokens.{IsWord, tokenize_two, print_int-IsWord}
use bulletin_board.Text.Numbers.{stoi-print_int}
use bulletin_board.Store.{Store, done}
use bulletin_board.BoardFile.{
  Undo, undo_replace, replace_arguments, has_bad_format, is_unknown, check_number,
  are_replace_arguments_valid, replace_operation, wrote, second_and_third,
}
use bulletin_board.BoardFile.State.{
  IsSmall, Holds, IsFree, entry, entry-IsLine, access_after, acquire_write_lock-IsFree,
  release_unless_held, Holds-access_data,
}
use bulletin_board.BoardFile.Rollback.{replaced, replaced-Holds, replace_message_effect}

-- The argument that a client writes to replace message `n`.
abbrev pub argument : ℕ → Bytes → Bytes
argument n message = print_int (pos n) ++ (b'/' ∷ message)

pub argument_tokens :
    (n : ℕ) (message : Bytes)
    → IsLine message
    → IsWord b'/' message
    → tokenize (argument n message) b'/' ≡ print_int (pos n) ∷ message ∷ []
argument_tokens n message m w =
    tokenize_two b'/' (print_int (pos n)) message
      (IsLine-HasNoNul (argument n message)
        (IsLine-append (print_int (pos n)) (b'/' ∷ message) (print_int-IsLine (pos n)) (slash, m)))
      (print_int-IsWord b'/' n (inl (omega arith))) w
  where
    slash : IsPlain b'/'
    slash = omega arith

pub replace_arguments_lem :
    (n : ℕ) (message : Bytes)
    → n ≤ 2147483647
    → IsLine message
    → IsWord b'/' message
    → replace_arguments (tokenize (argument n message) b'/') ≡ some (pos n, message)
unfolding replace_arguments
replace_arguments_lem n message h m w =
    ap replace_arguments (argument_tokens n message m w) ∙ ground (arith, stoi-print_int n h)

-- What the check accepts: exactly one '/', a number in front of it that fits in an `int` and counts
-- a message of the board, and a message behind it that is not empty.
pub record Accepted (text : Bytes) (s : Store) : Type 0 where
  pub number : ℕ
  pub message : Bytes
  pub parsed : replace_arguments (tokenize text b'/') ≡ some (pos number, message)
  pub one_slash : count b'/' text ≡ 1
  pub not_empty : message ≢ []
  pub known : number < s.message_number

check_number_accepts :
    (o : Option (ℤ × Bytes)) (e : Bytes) (s s' : Store)
    → check_number o s ≡ done (true, e) s'
    → (n : ℕ) × (m : Bytes) × (o ≡ some (pos n, m)) × (n < s.message_number) × (s' ≡ s)
unfolding check_number is_unknown
check_number_accepts none e s s' h = cc
check_number_accepts (some (pos n, m)) e s s' h = (n, m, refl, ground arith, ground arith)
check_number_accepts (some (negsuc n, m)) e s s' h = cc

-- The message is the second token, and that is not empty.
has_message :
    (number : Bytes) (c : ℕ) (rest : Bytes) (n : ℕ) (m : Bytes)
    → replace_arguments (number ∷ (c ∷ rest) ∷ []) ≡ some (pos n, m)
    → m ≢ []
unfolding replace_arguments
has_message number c rest n m h = ground arith

accepts_tokens :
    (tokens : List Bytes) (text refusal e : Bytes) (s s' : Store)
    → (if has_bad_format tokens text
        then done (false, refusal) s
        else check_number (replace_arguments tokens) s)
      ≡ done (true, e) s'
    → (n : ℕ) × (m : Bytes) × (replace_arguments tokens ≡ some (pos n, m))
      × (count b'/' text ≡ 1)
      × (m ≢ [])
      × (n < s.message_number)
      × (s' ≡ s)
unfolding has_bad_format
accepts_tokens [] text refusal e s s' h = cc
accepts_tokens (a ∷ []) text refusal e s s' h = cc
accepts_tokens (a ∷ [] ∷ []) text refusal e s s' h = cc
accepts_tokens (a ∷ b ∷ c ∷ r) text refusal e s s' h = ground arith
accepts_tokens (a ∷ (c ∷ m) ∷ []) text refusal e s s' h =
    let tokens = a ∷ (c ∷ m) ∷ [] in
    let format : (count b'/' text ≡ 1)
        × (check_number (replace_arguments tokens) s ≡ done (true, e) s') =
      ground arith in
    let (n, m', p, lt, same) = check_number_accepts (replace_arguments tokens) e s s' format.1 in
    (n, m', p, format.0, has_message a c m n m' p, lt, same)

-- If the check accepts an argument, the argument has the form that replaceOperation needs, and the
-- check has changed nothing.
pub are_replace_arguments_valid_sound :
    (text e : Bytes) (s s' : Store)
    → are_replace_arguments_valid text s ≡ done (true, e) s'
    → Accepted text s × (s' ≡ s)
unfolding are_replace_arguments_valid
are_replace_arguments_valid_sound text e s s' h =
    let (n, m, p, one, ne, lt, same) = accepts_tokens (tokenize text b'/') text _ e s s' h in
    (
      record { number = n; message = m; parsed = p; one_slash = one; not_empty = ne; known = lt },
      same,
    )

module _ (xs : List Bytes) (old : Bytes) (ys : List Bytes) (s : Store) (hold : Bool)
    (undo : Undo) where
  pub replace_operation_effect :
      (user message old_user old_message : Bytes)
      → Holds s (xs ++ (old ∷ ys))
      → IsSmall s
      → IsFree s.access_data
      → length xs ≤ 2147483647
      → IsLine user
      → IsLine message
      → IsWord b'/' message
      → length (entry (length xs) user message) < 255
      → second_and_third (tokenize old b'/') ≡ some (old_user, old_message)
      → replace_operation user (argument (length xs) message) hold undo s
        ≡ done
            (wrote (pos (length xs)) hold, undo_replace old_user (pos (length xs)) old_message)
            (record (replaced xs (entry (length xs) user message) ys s) {
              access_data = access_after hold s.access_data;
            })
  unfolding replace_operation
  replace_operation_effect user message old_user old_message h short free small u m w lt e =
      let l : Bytes = entry (length xs) user message in
      let locked : Store = record s { access_data = access_after true s.access_data } in
      ground (
        arith,
        h.readable,
        h.writable,
        acquire_write_lock-IsFree s free,
        replace_arguments_lem (length xs) message small m w,
        replace_message_effect xs old ys locked user message old_user old_message
            (Holds-access_data s (xs ++ (old ∷ ys)) (access_after true s.access_data) h) short u m
            lt e,
        release_unless_held hold (replaced xs l ys locked) s.access_data free,
      )

  -- On a board that holds the lines, whose file is 256 bytes below 2 GiB or more, with the lock free
  -- and where `old` has three tokens at '/', REPLACE of the number of `old` by a message
  -- that is not empty and holds no '/', whose line takes less than 255 bytes, returns: the new line
  -- stands in the place of `old`, the other lines and the count stay, the undo action holds the first
  -- two tokens of `old` behind its number, and the lock is kept exactly if `hold` says so.
  pub replace_operation-Holds :
      (user message old_user old_message : Bytes)
      → Holds s (xs ++ (old ∷ ys))
      → IsSmall s
      → IsFree s.access_data
      → length xs ≤ 2147483647
      → IsLine user
      → IsLine message
      → IsWord b'/' message
      → length (entry (length xs) user message) < 255
      → second_and_third (tokenize old b'/') ≡ some (old_user, old_message)
      → (s' : Store) × (replace_operation user (argument (length xs) message) hold undo s
          ≡ done
              (wrote (pos (length xs)) hold, undo_replace old_user (pos (length xs)) old_message)
              s')
        × Holds s' (xs ++ (entry (length xs) user message ∷ ys))
        × (s'.access_data ≡ access_after hold s.access_data)
  replace_operation-Holds user message old_user old_message h short free small u m w lt e =
      let l : Bytes = entry (length xs) user message in
      (
        record (replaced xs l ys s) { access_data = access_after hold s.access_data },
        replace_operation_effect user message old_user old_message h short free small u m w lt e,
        Holds-access_data (replaced xs l ys s) (xs ++ (l ∷ ys)) (access_after hold s.access_data)
            (replaced-Holds xs old ys l s h (entry-IsLine (length xs) user message u m, lt)),
        refl,
      )
