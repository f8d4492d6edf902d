-- ===== src/SyncServer/Replacements.antt =====
-- Whole connections of the master with a REPLACE.
use bulletin_board.Base.{
  ℕ, ◌≤◌, ◌<◌, ◌≡◌, refl, sym, ap, ◌∙◌, true, some, List, [], ◌∷◌, ◌++◌, arith, length,
}
use bulletin_board.Base.Int.{pos}
use bulletin_board.Text.{Bytes, codes, tokenize, socket_message}
use bulletin_board.Text.Lines.{IsLine, IsLine-append}
use bulletin_board.Text.Tokens.{IsWord, tokens_from-cons, tokens_from-one}
use bulletin_board.LineReader.{Receipt, received}
use bulletin_board.Lock.{leave_writer}
use bulletin_board.Store.{Store, done, bind}
use bulletin_board.BoardFile.{no_operation, undo_replace, run_undo, wrote, second_and_third}
use bulletin_board.BoardFile.State.{Holds, IsSmall, Holds-access_data, IsFree, access_after, entry}
use bulletin_board.BoardFile.Rollback.{
  replaced, replace_message_effect, run_undo-replace_message, tokenize-entry,
}
use bulletin_board.BoardFile.Arguments.{argument, replace_operation_effect}
use bulletin_board.SyncServer.{
  precommit_acknowledged, awaiting_decision, Session, new_session, next, dispatch, handle_chunk,
  serve, commit_with, commit, perform, commit_answer, ready_answer,
}
use bulletin_board.SyncServer.Answers.{operation_failed-wrote}
use bulletin_board.SyncServer.Decision.{
  Decides, Verdict, keep, undone, settled, serve_goes_on, serve-Decides,
}
use bulletin_board.SyncServer.Requests.{Parsed-message}
use bulletin_board.SyncServer.Flows.{
  precommit_message, precommit_message-nonempty, precommit_turn, commit_message,
  commit_message-nonempty, IsArgument, acknowledged, handle_chunk-Parsed,
}

-- The command as the client wrote it.
abbrev pub replace_command : Bytes → Bytes
replace_command arguments = codes "REPLACE " ++ arguments

-- The board behind the connection: the message with this number is replaced, or nothing is changed.
abbrev pub replacement_outcome : Verdict → List Bytes → Bytes → List Bytes → Store → Store
replacement_outcome keep xs line ys s = replaced xs line ys s
replacement_outcome undone xs line ys s = s

abbrev pub replaced_answer : ℕ → Bytes
replaced_answer n = socket_message 50 (codes "COMMIT_SUCCESS") (wrote (pos n) true)

-- A replacement that can be carried out and taken back.
pub record CanReplace (xs ys : List Bytes) (s : Store) (user message old_user old_message : Bytes)
    : Type 0 where
  pub holds : Holds s (xs ++ (entry (length xs) old_user old_message ∷ ys))
  pub free : IsFree s.access_data
  pub small : length xs ≤ 2147483647
  pub short : IsSmall s
  pub user_IsArgument : IsArgument user
  pub sent_IsArgument : IsArgument (argument (length xs) message)
  pub message_IsLine : IsLine message
  pub message_IsWord : IsWord b'/' message
  pub fits : length (entry (length xs) user message) < 255
  pub old_user_IsLine : IsLine old_user
  pub old_user_IsWord : IsWord b'/' old_user
  pub old_message_IsLine : IsLine old_message
  pub old_message_IsWord : IsWord b'/' old_message

module _ (xs ys : List Bytes) (s : Store) (user message old_user old_message : Bytes)
    (r : CanReplace xs ys s user message old_user old_message) where
  abbrev n : ℕ
  n = length xs

  abbrev line : Bytes
  line = entry n user message

  abbrev locked : Store
  locked = record s { access_data = access_after true s.access_data }

  abbrev changed : Store
  changed = replaced xs line ys locked

  abbrev committed : Session
  committed = record {
    status = awaiting_decision;
    undo_commit_operation = undo_replace old_user (pos n) old_message;
    operation_performed = codes "REPLACE";
    user = user;
  }

  pub old_tokens :
      second_and_third (tokenize (entry n old_user old_message) b'/') ≡ some (old_user, old_message)
  old_tokens =
      tokenize-entry n old_user old_message r.old_user_IsLine r.old_message_IsLine r.old_user_IsWord
        r.old_message_IsWord

  locked-Holds : Holds locked (xs ++ (entry n old_user old_message ∷ ys))
  locked-Holds =
      Holds-access_data s (xs ++ (entry n old_user old_message ∷ ys))
        (access_after true s.access_data) r.holds

  run_undo-replaced : run_undo (undo_replace old_user (pos n) old_message) changed ≡ done tt locked
  run_undo-replaced =
      sym (
        ap (λ e. bind e run_undo)
          (replace_message_effect xs (entry n old_user old_message) ys locked user message old_user
            old_message locked-Holds r.short r.user_IsArgument.0 r.message_IsLine r.fits
            old_tokens))
      ∙ run_undo-replace_message xs ys locked user message old_user old_message r.user_IsArgument.0
          r.message_IsLine r.old_user_IsLine r.fits r.old_user_IsWord r.old_message_IsWord
          r.old_message_IsLine r.short locked-Holds

  replace_turn :
      handle_chunk (acknowledged user) (commit_message (replace_command (argument n message))) s
      ≡ done (replaced_answer n ∷ [], next committed) changed
  unfolding dispatch commit_with commit perform commit_answer
  replace_turn =
      let (l, w, lt) = r.sent_IsArgument in
      handle_chunk-Parsed (acknowledged user)
        (commit_message (replace_command (argument n message))) (codes "COMMIT") _ s
        (Parsed-message (codes "COMMIT") (replace_command (argument n message)) (omega arith)
          (IsLine-append (codes "REPLACE ") (argument n message) (omega arith) l)
          (ground arith, omega arith) (omega arith))
      ∙ ap (λ a. dispatch precommit_acknowledged (acknowledged user) (codes "COMMIT") a s)
          (tokens_from-cons b' ' (codes "REPLACE") (argument n message) (ground arith, omega arith)
            ∙ ap (◌∷◌ (codes "REPLACE")) (tokens_from-one b' ' (argument n message) w))
      ∙ ground (
        arith,
        replace_operation_effect xs (entry n old_user old_message) ys s true no_operation user
            message old_user old_message r.holds r.short r.free r.small r.user_IsArgument.0
            r.message_IsLine r.message_IsWord r.fits old_tokens,
        operation_failed-wrote (pos n) true,
      )

  settled-replacement :
      (v : Verdict) → settled v changed locked ≡ replacement_outcome v xs line ys s
  unfolding leave_writer
  settled-replacement keep =
      ap
        (λ w. record (replaced xs line ys s) {
          access_data = record s.access_data { writer_active = w };
        })
        (sym r.free.1)
  settled-replacement undone =
      ap (λ w. record s { access_data = record s.access_data { writer_active = w } }) (sym r.free.1)

  -- PRECOMMIT and COMMIT of a REPLACE of message `length xs`, where the name and the argument
  -- number/message are one word and below 230 bytes each, the old name, the old message and the
  -- new message are not empty and hold no '/', the new line is below 255 bytes, the number is an
  -- int, the file can be read and written and is 256 bytes below 2 GiB or more, and its lock is
  -- free: the slave answers READY and COMMIT_SUCCESS, and when the decision has come, or the
  -- master is silent, the message is replaced (SUCCESS_NOOP) or the board is as it was, byte by
  -- byte, and the lock is free again.
  pub replace_connection :
      (rs : List Receipt) (v : Verdict)
      → Decides rs v
      → serve new_session
          (received (precommit_message user)
            ∷ received (commit_message (replace_command (argument (length xs) message)))
            ∷ rs)
          s
        ≡ done
            (socket_message 50 (codes "READY") ready_answer ∷ replaced_answer (length xs) ∷ [])
            (replacement_outcome v xs (entry (length xs) user message) ys s)
  replace_connection rs v d =
      serve_goes_on new_session (acknowledged user) (precommit_message user)
        (received (commit_message (replace_command (argument n message))) ∷ rs) s s _
        (socket_message 50 (codes "READY") ready_answer ∷ []) (replaced_answer n ∷ [])
        (precommit_message-nonempty user) (precommit_turn user s r.user_IsArgument)
        (serve_goes_on (acknowledged user) committed
          (commit_message (replace_command (argument n message))) rs s changed _
          (replaced_answer n ∷ []) []
          (commit_message-nonempty (replace_command (argument n message))) replace_turn
          (serve-Decides committed changed locked refl run_undo-replaced d
            ∙ ap (done []) (settled-replacement v)))
