-- ===== src/BoardFile/Rollback.antt =====
-- The undo action of a replacement: it rebuilds the old line from the tokens of that line.
use bulletin_board.Base.{
  ℕ, ◌<◌, ◌≡◌, refl, ap, ◌∙◌, sym, some, List, [], ◌∷◌, ◌++◌, inl, arith, length, length-append,
}
use bulletin_board.Base.Int.{pos}
use bulletin_board.Text.{Bytes, tokenize, print_int}
use bulletin_board.Text.Lines.{IsLine, IsLine-HasNoNul}
use bulletin_board.Text.Tokens.{
  IsWord, tokenize-tokens_from, tokens_from-cons, tokens_from-one, print_int-IsWord,
}
use bulletin_board.Store.{Store, done, bind}
use bulletin_board.BoardFile.{
  undo_replace, get_message_number_info, line_info, second_and_third, replace_message, run_undo,
}
use bulletin_board.BoardFile.Lines.{encode, Fits, AllFit-append}
use bulletin_board.BoardFile.State.{Holds, IsSmall, entry, entry-IsLine, length-entry}
use bulletin_board.BoardFile.Replace.{
  replaced-IsSmall, sought, split_fit, optimal_replace_algorithm_lem,
}

-- The tokens of a stored line whose user and message hold no '/'; `more` is what stands behind a
-- further '/'.
pub tokenize-entry :
    (n : ℕ) (user message : Bytes)
    → IsLine user
    → IsLine message
    → IsWord b'/' user
    → IsWord b'/' message
    → second_and_third (tokenize (entry n user message) b'/') ≡ some (user, message)
unfolding second_and_third
tokenize-entry n user message u m wu wm = ap second_and_third (
    tokenize-tokens_from (entry n user message) b'/'
      (IsLine-HasNoNul (entry n user message) (entry-IsLine n user message u m))
    ∙ tokens_from-cons b'/' (print_int (pos n)) (user ++ (b'/' ∷ message))
        (print_int-IsWord b'/' n (inl (omega arith)))
    ∙ ap (◌∷◌ (print_int (pos n)))
        (tokens_from-cons b'/' user message wu ∙ ap (◌∷◌ user) (tokens_from-one b'/' message wm)))

tokenize-entry_slash :
    (n : ℕ) (user message more : Bytes)
    → IsLine user
    → IsLine (message ++ (b'/' ∷ more))
    → IsWord b'/' user
    → IsWord b'/' message
    → second_and_third (tokenize (entry n user (message ++ (b'/' ∷ more))) b'/')
      ≡ some (user, message)
unfolding second_and_third
tokenize-entry_slash n user message more u m wu wm = ap second_and_third (
    tokenize-tokens_from (entry n user (message ++ (b'/' ∷ more))) b'/' (
      IsLine-HasNoNul (entry n user (message ++ (b'/' ∷ more)))
        (entry-IsLine n user (message ++ (b'/' ∷ more)) u m))
    ∙ tokens_from-cons b'/' (print_int (pos n)) (user ++ (b'/' ∷ (message ++ (b'/' ∷ more))))
        (print_int-IsWord b'/' n (inl (omega arith)))
    ∙ ap (◌∷◌ (print_int (pos n))) (
        tokens_from-cons b'/' user (message ++ (b'/' ∷ more)) wu
        ∙ ap (◌∷◌ user) (tokens_from-cons b'/' message more wm)))

-- The state after a replacement.
abbrev pub replaced : List Bytes → Bytes → List Bytes → Store → Store
replaced xs l ys s = record s { content = encode (xs ++ (l ∷ ys)) }

pub replaced-Holds :
    (xs : List Bytes) (old : Bytes) (ys : List Bytes) (l : Bytes) (s : Store)
    → Holds s (xs ++ (old ∷ ys))
    → Fits l
    → Holds (replaced xs l ys s) (xs ++ (l ∷ ys))
replaced-Holds xs old ys l s h f =
    let (fx, fy) = split_fit xs old ys s h in
    record {
      encoded = refl;
      fit = AllFit-append xs (l ∷ ys) fx (f, fy.1);
      counted = omega (arith, h.counted, length-append xs (l ∷ ys), length-append xs (old ∷ ys));
      readable = h.readable;
      writable = h.writable;
    }

module _ (xs : List Bytes) (old : Bytes) (ys : List Bytes) (s : Store) where
  pub replace_message_effect :
      (user message old_user old_message : Bytes)
      → Holds s (xs ++ (old ∷ ys))
      → IsSmall s
      → IsLine user
      → IsLine message
      → length (entry (length xs) user message) < 255
      → second_and_third (tokenize old b'/') ≡ some (old_user, old_message)
      → replace_message user (pos (length xs)) message s
        ≡ done
            (undo_replace old_user (pos (length xs)) old_message)
            (replaced xs (entry (length xs) user message) ys s)
  unfolding replace_message get_message_number_info line_info
  replace_message_effect user message old_user old_message h small u m lt e = ground (
    arith,
    sought xs old ys s h [],
    e,
    optimal_replace_algorithm_lem xs old ys s h user message u m (omega arith) (omega arith)
        (replaced-IsSmall xs old ys s h (entry (length xs) user message) small lt),
  )

  -- A replaced line of less than 255 bytes holds what the caller sent, under the same number, and the
  -- other lines and the count stay: the board is as before but for this line. The undo action holds
  -- the first two tokens of the old line behind its number.
  pub replace_message-Holds :
      (user message old_user old_message : Bytes)
      → Holds s (xs ++ (old ∷ ys))
      → IsSmall s
      → IsLine user
      → IsLine message
      → length (entry (length xs) user message) < 255
      → second_and_third (tokenize old b'/') ≡ some (old_user, old_message)
      → (s' : Store) × (replace_message user (pos (length xs)) message s
          ≡ done (undo_replace old_user (pos (length xs)) old_message) s')
        × Holds s' (xs ++ (entry (length xs) user message ∷ ys))
        × (s'.access_data ≡ s.access_data)
  replace_message-Holds user message old_user old_message h small u m lt e = (
    replaced xs (entry (length xs) user message) ys s,
    replace_message_effect user message old_user old_message h small u m lt e,
    replaced-Holds xs old ys (entry (length xs) user message) s h
        (entry-IsLine (length xs) user message u m, lt),
    refl,
  )

  -- Running the undo action puts the line of the two tokens in the old line's place.
  undo_effect :
      (user message old_user old_message : Bytes)
      → Holds s (xs ++ (old ∷ ys))
      → IsSmall s
      → IsLine user
      → IsLine message
      → IsLine old_user
      → IsLine old_message
      → length (entry (length xs) user message) < 255
      → length (entry (length xs) old_user old_message) < 255
      → second_and_third (tokenize old b'/') ≡ some (old_user, old_message)
      → bind (replace_message user (pos (length xs)) message s) run_undo
        ≡ done tt (replaced xs (entry (length xs) old_user old_message) ys s)
  unfolding run_undo
  undo_effect user message old_user old_message h small u m ou om lt lt' e =
      let l : Bytes = entry (length xs) user message in
      ap (λ r. bind r run_undo)
        (replace_message_effect user message old_user old_message h small u m lt e)
      ∙ optimal_replace_algorithm_lem xs l ys (replaced xs l ys s)
          (replaced-Holds xs old ys l s h (entry-IsLine (length xs) user message u m, lt)) old_user
          old_message ou om (omega arith) (replaced-IsSmall xs old ys s h l small lt)
          (replaced-IsSmall xs old ys s h (entry (length xs) old_user old_message) small lt')

module _ (xs ys : List Bytes) (s : Store) (user message old_user old_message : Bytes)
    (u : IsLine user) (m : IsLine message) (ou : IsLine old_user)
    (lt : length (entry (length xs) user message) < 255) (wu : IsWord b'/' old_user)
    (wm : IsWord b'/' old_message) where
  -- On a board that holds such lines, whose file is 256 bytes below 2 GiB or more, replacing one
  -- by a line of less than 255 bytes and undoing it leaves the board as it was, byte by byte,
  -- where the old user and the old message are not empty and hold no '/' and no terminator.
  pub run_undo-replace_message :
      IsLine old_message
      → IsSmall s
      → Holds s (xs ++ (entry (length xs) old_user old_message ∷ ys))
      → bind (replace_message user (pos (length xs)) message s) run_undo ≡ done tt s
  run_undo-replace_message om small h =
      let l : Bytes = entry (length xs) old_user old_message in
      let (fx, fy) = split_fit xs l ys s h in
      undo_effect xs l ys s user message old_user old_message h small u m ou om lt fy.0.1
        (tokenize-entry (length xs) old_user old_message ou om wu wm)
      ∙ ap (λ c. done tt (record s { content = c })) (sym h.encoded)

  -- On a board that holds such lines, whose file is 256 bytes below 2 GiB or more, where the old
  -- user and the part of the old message before its first '/' are not empty, undoing a
  -- replacement by a line of less than 255 bytes drops that '/' and what is behind it.
  pub run_undo_drops_tail :
      (more : Bytes)
      → IsLine old_message
      → IsLine (old_message ++ (b'/' ∷ more))
      → IsSmall s
      → Holds s (xs ++ (entry (length xs) old_user (old_message ++ (b'/' ∷ more)) ∷ ys))
      → bind (replace_message user (pos (length xs)) message s) run_undo
        ≡ done tt (replaced xs (entry (length xs) old_user old_message) ys s)
  run_undo_drops_tail more om om' small h =
      let l : Bytes = entry (length xs) old_user (old_message ++ (b'/' ∷ more)) in
      let (fx, fy) = split_fit xs l ys s h in
      undo_effect xs l ys s user message old_user old_message h small u m ou om lt
        (omega (
          arith,
          fy.0.1,
          length-entry (length xs) old_user (old_message ++ (b'/' ∷ more)),
          length-entry (length xs) old_user old_message,
          length-append old_message (b'/' ∷ more),
        ))
        (tokenize-entry_slash (length xs) old_user old_message more ou om' wu wm)
