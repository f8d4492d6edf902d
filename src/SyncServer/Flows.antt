-- ===== src/SyncServer/Flows.antt =====
-- Whole connections of the master: PRECOMMIT, COMMIT of a WRITE, and the decision.
use bulletin_board.Base.{
  ◌<◌, ◌≡◌, ◌≢◌, refl, ap, ◌∙◌, sym, true, false, List, [], ◌∷◌, ◌++◌, arith, length,
}
use bulletin_board.Base.Int.{pos}
use bulletin_board.Text.{Bytes, codes, socket_message}
use bulletin_board.Text.Lines.{IsLine, IsLine-append}
use bulletin_board.Text.Tokens.{IsWord, tokens_from-cons, tokens_from-one}
use bulletin_board.LineReader.{Receipt, received}
use bulletin_board.Lock.{leave_writer}
use bulletin_board.Store.{Store, done, bind}
use bulletin_board.BoardFile.{no_operation, undo_write, run_undo, wrote, file_size}
use bulletin_board.BoardFile.State.{IsFree, access_after}
use bulletin_board.BoardFile.Write.{written, write_operation_effect, run_undo-write_operation}
use bulletin_board.SyncServer.{
  idle, precommit_acknowledged, awaiting_decision, Session, new_session, next, dispatch,
  handle_tokens, handle_request, handle_chunk, serve, precommit_with, commit_with, commit, perform,
  commit_answer, ready_answer,
}
use bulletin_board.SyncServer.Answers.{operation_failed-wrote}
use bulletin_board.SyncServer.Decision.{
  Decides, Verdict, keep, undone, settled, serve_goes_on, serve-Decides,
}
use bulletin_board.SyncServer.Requests.{Parsed, Parsed-message}

-- What the slave answers to the COMMIT of a WRITE.
abbrev pub success_answer : Store → Bytes
success_answer s = socket_message 50 (codes "COMMIT_SUCCESS") (wrote (pos s.message_number) true)

-- A turn on a message that has been parsed.
pub handle_chunk-Parsed :
    (session : Session) (chunk name : Bytes) (arguments : List Bytes) (s : Store)
    → Parsed chunk name arguments
    → handle_chunk session chunk s ≡ dispatch session.status session name arguments s
unfolding handle_chunk handle_request handle_tokens
handle_chunk-Parsed session chunk name arguments s p = ground (arith, p.terminated, p.tokens)

abbrev pub precommit_message : Bytes → Bytes
precommit_message user = socket_message 50 (codes "PRECOMMIT") user

-- The command as the client wrote it.
abbrev pub write_command : Bytes → Bytes
write_command text = codes "WRITE " ++ text

abbrev pub commit_message : Bytes → Bytes
commit_message command = socket_message 50 (codes "COMMIT") command

abbrev pub IsArgument : Bytes → Type 0
IsArgument s = IsLine s × IsWord b' ' s × (length s < 230)

abbrev pub acknowledged : Bytes → Session
acknowledged user = record new_session { status = precommit_acknowledged; user = user }

pub precommit_turn :
    (user : Bytes) (s : Store)
    → IsArgument user
    → handle_chunk new_session (precommit_message user) s
      ≡ done (socket_message 50 (codes "READY") ready_answer ∷ [], next (acknowledged user)) s
unfolding dispatch precommit_with
precommit_turn user s (l, w, lt) =
    handle_chunk-Parsed new_session (precommit_message user) (codes "PRECOMMIT") _ s (
      Parsed-message (codes "PRECOMMIT") user (omega arith) l (ground arith, omega arith)
        (omega arith))
    ∙ ap (λ a. dispatch idle new_session (codes "PRECOMMIT") a s) (tokens_from-one b' ' user w)

-- The session after a write has been carried out.
abbrev pub committed : Bytes → Store → Session
committed user s = record {
  status = awaiting_decision;
  undo_commit_operation = undo_write (file_size s);
  operation_performed = codes "WRITE";
  user = user;
}

write_turn :
    (user text : Bytes) (s : Store)
    → IsArgument text
    → s.writable ≡ true
    → IsFree s.access_data
    → handle_chunk (acknowledged user) (commit_message (write_command text)) s
      ≡ done (success_answer s ∷ [], next (committed user s)) (written user text true s)
unfolding dispatch commit_with commit perform commit_answer
write_turn user text s (l, w, lt) wr free =
    handle_chunk-Parsed (acknowledged user) (commit_message (write_command text)) (codes "COMMIT") _
      s
      (Parsed-message (codes "COMMIT") (write_command text) (omega arith)
        (IsLine-append (codes "WRITE ") text (omega arith) l) (ground arith, omega arith)
        (omega arith))
    ∙ ap (λ a. dispatch precommit_acknowledged (acknowledged user) (codes "COMMIT") a s)
        (tokens_from-cons b' ' (codes "WRITE") text (ground arith, omega arith)
          ∙ ap (◌∷◌ (codes "WRITE")) (tokens_from-one b' ' text w))
    ∙ ground (
      arith,
      write_operation_effect user text true no_operation s wr free,
      operation_failed-wrote (pos s.message_number) true,
    )

-- The action that the slave keeps takes the write back.
run_undo-written :
    (user text : Bytes) (s : Store)
    → s.readable ≡ true
    → s.writable ≡ true
    → IsFree s.access_data
    → run_undo (undo_write (file_size s)) (written user text true s)
      ≡ done tt (record s { access_data = access_after true s.access_data })
run_undo-written user text s r wr free =
    sym (
      ap (λ e. bind e (λ x. run_undo x.1))
        (write_operation_effect user text true no_operation s wr free))
    ∙ run_undo-write_operation user text no_operation s r wr free

-- The board behind the connection.
abbrev pub outcome : Verdict → Bytes → Bytes → Store → Store
outcome keep user text s = written user text false s
outcome undone user text s = s

settled-outcome :
    (v : Verdict) (user text : Bytes) (s : Store)
    → IsFree s.access_data
    → settled v
        (written user text true s)
        (record s { access_data = access_after true s.access_data })
      ≡ outcome v user text s
unfolding leave_writer
settled-outcome keep user text s free =
    ap
      (λ w. record (written user text false s) {
        access_data = record s.access_data { writer_active = w };
      })
      (sym free.1)
settled-outcome undone user text s free =
    ap (λ w. record s { access_data = record s.access_data { writer_active = w } }) (sym free.1)

abbrev pub written_messages : Store → List Bytes
written_messages s = socket_message 50 (codes "READY") ready_answer ∷ success_answer s ∷ []

pub precommit_message-nonempty : (user : Bytes) → precommit_message user ≢ []
unfolding socket_message
precommit_message-nonempty user = ground arith

pub commit_message-nonempty : (command : Bytes) → commit_message command ≢ []
unfolding socket_message
commit_message-nonempty command = ground arith

-- What a session does after the two first messages.
after_commit :
    (user text : Bytes) (s t : Store) (rs : List Receipt)
    → IsArgument user
    → IsArgument text
    → s.writable ≡ true
    → IsFree s.access_data
    → serve (committed user s) rs (written user text true s) ≡ done [] t
    → serve new_session
        (received (precommit_message user) ∷ received (commit_message (write_command text)) ∷ rs)
        s
      ≡ done (written_messages s) t
after_commit user text s t rs u a wr free e =
    serve_goes_on new_session (acknowledged user) (precommit_message user)
      (received (commit_message (write_command text)) ∷ rs) s s t
      (socket_message 50 (codes "READY") ready_answer ∷ []) (success_answer s ∷ [])
      (precommit_message-nonempty user) (precommit_turn user s u)
      (serve_goes_on (acknowledged user) (committed user s) (commit_message (write_command text)) rs
        s (written user text true s) t (success_answer s ∷ []) []
        (commit_message-nonempty (write_command text)) (write_turn user text s a wr free) e)

-- PRECOMMIT and COMMIT of a WRITE, with a user and a text of one word each, of less than 230 bytes,
-- on a board that can be read and written and whose lock is free: the slave answers READY and
-- COMMIT_SUCCESS, and when the decision has come, or the master is silent, the message is on the board
-- (SUCCESS_NOOP) or the board is as it was, and the lock is free again.
pub write_connection :
    (user text : Bytes) (s : Store) (rs : List Receipt) (v : Verdict)
    → IsArgument user
    → IsArgument text
    → s.readable ≡ true
    → s.writable ≡ true
    → IsFree s.access_data
    → Decides rs v
    → serve new_session
        (received (precommit_message user) ∷ received (commit_message (write_command text)) ∷ rs)
        s
      ≡ done (written_messages s) (outcome v user text s)
write_connection user text s rs v u a r wr free d =
    after_commit user text s (outcome v user text s) rs u a wr free (
      serve-Decides (committed user s) (written user text true s)
        (record s { access_data = access_after true s.access_data }) refl
        (run_undo-written user text s r wr free) d
      ∙ ap (done []) (settled-outcome v user text s free))
