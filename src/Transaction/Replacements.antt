-- ===== src/Transaction/Replacements.antt =====
-- Transactions of a REPLACE.
use bulletin_board.Base.{
  ℕ, length, ◌≡◌, inr, refl, ap, ◌∙◌, true, false, some, List, [], ◌∷◌, arith, get_elem?,
}
use bulletin_board.Base.Int.{pos}
use bulletin_board.Text.{
  Bytes, codes, tokenize, print_code, create_message, snprintf, c_str, has_infix, starts_with,
}
use bulletin_board.Text.Decimal.{to_string, digits}
use bulletin_board.Text.Lines.{IsLine-append, IsLine-HasNoNul}
use bulletin_board.Text.Tokens.{tokenize_two}
use bulletin_board.LineReader.{Receipt}
use bulletin_board.Store.{Store, done}
use bulletin_board.BoardFile.{no_operation, wrote}
use bulletin_board.BoardFile.State.{entry}
use bulletin_board.BoardFile.Rollback.{replaced}
use bulletin_board.BoardFile.Arguments.{argument, replace_operation_effect}
use bulletin_board.SyncServer.Replacements.{
  CanReplace, replace_command, replacement_outcome, replaced_answer, replace_connection, old_tokens,
}
use bulletin_board.SyncServer.{ready_answer}
use bulletin_board.SyncServer.{operation_failed}
use bulletin_board.SyncServer.Decision.{Verdict, keep, undone}
use bulletin_board.Text.{socket_message, join_two_strings_with_delimiter}
use bulletin_board.BoardServer.{completion_answer}
use bulletin_board.PeerCommunication.{Phase, local_operation, local_operation_on}
use bulletin_board.PeerCommunication.Threads.{System, Reach}
use bulletin_board.Transaction.Atomic.{Finished, Answered, transaction_atomic}
use bulletin_board.Transaction.{Hears, conversation}
use bulletin_board.Transaction.Change.{Change, EndsWith, decided}

replacement_failure : operation_failed (completion_answer (codes "REPLACE") []) ≡ true
unfolding completion_answer join_two_strings_with_delimiter operation_failed has_infix starts_with
    create_message socket_message snprintf c_str print_code to_string digits
replacement_failure = refl

replacement_outcome-decided :
    (v : Verdict) (xs : List Bytes) (line : Bytes) (ys : List Bytes) (s : Store)
    → replacement_outcome v xs line ys s ≡ decided v (replaced xs line ys s) s
replacement_outcome-decided keep xs line ys s = refl
replacement_outcome-decided undone xs line ys s = refl

module _ (xs ys : List Bytes) (user message old_user old_message : Bytes) where
  -- What the master's own REPLACE does.
  pub local_replacement :
      (s : Store)
      → CanReplace xs ys s user message old_user old_message
      → local_operation user (replace_command (argument (length xs) message)) s
        ≡ done (wrote (pos (length xs)) false) (replaced xs (entry (length xs) user message) ys s)
  unfolding local_operation local_operation_on
  local_replacement s r =
      let (l, w, lt) = r.sent_IsArgument in
      let command = replace_command (argument (length xs) message) in
      let tokens : tokenize command b' ' ≡ codes "REPLACE" ∷ argument (length xs) message ∷ [] =
        tokenize_two b' ' (codes "REPLACE") (argument (length xs) message)
          (IsLine-HasNoNul command
            (IsLine-append (codes "REPLACE ") (argument (length xs) message) (omega arith) l))
          (ground arith, omega arith) w in
      ap (λ t. local_operation_on user t s) tokens
      ∙ ground (
        arith,
        replace_operation_effect xs (entry (length xs) old_user old_message) ys s false no_operation
            user message old_user old_message r.holds r.short r.free r.small r.user_IsArgument.0
            r.message_IsLine r.message_IsWord r.fits
            (old_tokens xs ys s user message old_user old_message r),
      )

  abbrev replace_change : Change user
  replace_change = record {
    name = codes "REPLACE";
    command = replace_command (argument (length xs) message);
    IsReady = λ s. CanReplace xs ys s user message old_user old_message;
    IsHealthy = λ s. CanReplace xs ys s user message old_user old_message;
    answer = λ s. wrote (pos (length xs)) false;
    changed = replaced xs (entry (length xs) user message) ys;
    carried_out = λ s r. inr (local_replacement s r);
    failure = replacement_failure;
    connection = λ s rs v r d.
        let m = socket_message 50 (codes "READY") ready_answer ∷ replaced_answer (length xs) ∷ [] in
        (
          m,
          replace_connection xs ys s user message old_user old_message r rs v d
              ∙ ap (done m)
                  (replacement_outcome-decided v xs (entry (length xs) user message) ys s),
        );
  }

  -- When all threads of a REPLACE of message `length xs` have ended, where the name and the
  -- argument number/message are one word and below 230 bytes each, the old name, the old message
  -- and the new message are not empty and hold no '/', the new line is below 255 bytes, the
  -- number is an int, the file can be read and written and is 256 bytes below 2 GiB or more, and
  -- its lock is free, there is one verdict for all: the client is told that number, and the line
  -- is replaced on the master's board and on that of each slave for which the same conditions
  -- hold and which has heard what its thread sent; or the client is told a failure, and these
  -- boards are as they were, byte by byte.
  pub replacement_atomic :
      {peers : ℕ} {before : Store} {s : System}
      → CanReplace xs ys before user message old_user old_message
      → Reach user (replace_command (argument (length xs) message)) peers before s
      → Finished s
      → (v : Verdict) × (s.shared.store
          ≡ decided v (replaced xs (entry (length xs) user message) ys before) before)
        × Answered v
            (wrote (pos (length xs)) false)
            (completion_answer (codes "REPLACE") s.shared.statistics.completion)
        × ((i : ℕ) (p : Phase) (rs : List Receipt) (t : Store)
            → get_elem? s.threads i ≡ some p
            → CanReplace xs ys t user message old_user old_message
            → Hears (conversation user (replace_command (argument (length xs) message)) p) rs
            → EndsWith rs t (decided v (replaced xs (entry (length xs) user message) ys t) t))
  replacement_atomic ready r finished =
      transaction_atomic replace_change ready.user_IsArgument ready r finished
