-- ===== src/SyncServer/Discipline.antt =====
-- The slave holds the write lock exactly while it awaits the master's decision: the turns.
use bulletin_board.Base.{
  ◌≡◌, inl, inr, refl, Bool, true, false, not, Option, none, some, List, [], ◌∷◌, arith, ◌&&◌,
  Bool-cases,
}
use bulletin_board.Base.Int.{ℤ, pos}
use bulletin_board.Text.{Bytes, codes, tokenize, str_eq}
use bulletin_board.Lock.{AccessData, leave_writer}
use bulletin_board.Store.{bind-eq-done, Store, done, bind, release_write_lock}
use bulletin_board.BoardFile.{
  Undo, write_operation, replace_operation, replace_with, replace_arguments, replace_message,
  run_undo, release_unless,
}
use bulletin_board.BoardFile.State.{IsFree, access_after, acquire_write_lock-IsFree}
use bulletin_board.BoardFile.Write.{write_operation_effect}
use bulletin_board.SyncServer.{
  Status, idle, precommit_acknowledged, awaiting_decision, Session, Turn, next, leave, sent_in,
  operation_failed, perform, commit, commit_with, precommit_with, undo_and_release, dispatch,
  handle_tokens, handle_request, handle_chunk, abandon, terminate,
}
use bulletin_board.SyncServer.Answers.{operation_failed-wrote, operation_failed-unavailable}
use bulletin_board.BoardFile.LockData.{run_undo-KeepsLock, replace_message-KeepsLock}

abbrev pub awaits : Status → Bool
awaits awaiting_decision = true
awaits _ = false

abbrev pub keeps_lock : Turn → Bool
keeps_lock (next session) = awaits session.status
keeps_lock leave = false

module _ (a : AccessData) (free : IsFree a) where
  write_operation-lock :
      (user message : Bytes) (undo : Undo) (s : Store) (r : Bytes × Undo) (t : Store)
      → s.access_data ≡ a
      → write_operation user message true undo s ≡ done r t
      → t.access_data ≡ access_after (not (operation_failed r.0)) a
  write_operation-lock user message undo s r t e h = elim (Bool-cases s.writable) [
    | inl w ↦
        let free' : IsFree s.access_data = ground arith in
        ground (
          arith,
          write_operation_effect user message true undo s w free',
          operation_failed-wrote (pos s.message_number) true,
        )
    | inr w ↦ unfold write_operation in ground (arith, operation_failed-unavailable.0)
  ]

  replace_with-lock :
      (user : Bytes) (o : Option (ℤ × Bytes)) (s : Store) (r : Bytes × Undo) (t : Store)
      → s.access_data ≡ access_after true a
      → replace_with user true o s ≡ done r t
      → t.access_data ≡ access_after (not (operation_failed r.0)) a
  unfolding replace_with release_unless
  replace_with-lock user none s r t e h = cc
  replace_with-lock user (some (n, m)) s r t e h =
      let (u, s', e', h') = bind-eq-done (replace_message user n m s) _ h in
      ground (arith, replace_message-KeepsLock user n m s u s' e', operation_failed-wrote n true)

  replace_operation-lock :
      (user text : Bytes) (undo : Undo) (s : Store) (r : Bytes × Undo) (t : Store)
      → s.access_data ≡ a
      → replace_operation user text true undo s ≡ done r t
      → t.access_data ≡ access_after (not (operation_failed r.0)) a
  replace_operation-lock user text undo s r t e h = elim (Bool-cases (s.readable && s.writable)) [
    | inl w ↦
        let free' : IsFree s.access_data = ground arith in
        let locked : Store = record s { access_data = access_after true s.access_data } in
        unfold replace_operation in
        ground (
          arith,
          acquire_write_lock-IsFree s free',
          replace_with-lock user (replace_arguments (tokenize text b'/')) locked r t,
        )
    | inr w ↦ unfold replace_operation in ground (arith, operation_failed-unavailable.1)
  ]

  perform-lock :
      (user command argument : Bytes) (undo : Undo) (s : Store) (r : Bytes × Undo) (t : Store)
      → s.access_data ≡ a
      → perform user command argument undo s ≡ done r t
      → t.access_data ≡ access_after (not (operation_failed r.0)) a
  unfolding perform
  perform-lock user command argument undo s r t e h =
      elim (Bool-cases (str_eq command (codes "WRITE"))) [
        | inl w ↦ write_operation-lock user argument undo s r t e (ground arith)
        | inr w ↦ replace_operation-lock user argument undo s r t e (ground arith)
      ]

  commit-lock :
      (session : Session) (command argument : Bytes) (s : Store) (r : List Bytes × Turn) (t : Store)
      → s.access_data ≡ a
      → commit session command argument s ≡ done r t
      → t.access_data ≡ access_after (keeps_lock r.1) a
  unfolding commit
  commit-lock session command argument s r t e h =
      let undo = session.undo_commit_operation in
      let (answer, s', e', h') = bind-eq-done (perform session.user command argument undo s) _ h in
      ground (arith, perform-lock session.user command argument undo s answer s' e e')

  commit_with-lock :
      (session : Session) (arguments : List Bytes) (s : Store) (r : List Bytes × Turn) (t : Store)
      → s.access_data ≡ a
      → commit_with session arguments s ≡ done r t
      → t.access_data ≡ access_after (keeps_lock r.1) a
  unfolding commit_with
  commit_with-lock session [] s r t e h = cc
  commit_with-lock session (x ∷ []) s r t e h = cc
  commit_with-lock session (x ∷ y ∷ rest) s r t e h = commit-lock session x y s r t e h

  undo_and_release-lock :
      (session : Session) (s t : Store)
      → s.access_data ≡ access_after true a
      → undo_and_release session s ≡ done tt t
      → t.access_data ≡ a
  unfolding undo_and_release release_write_lock leave_writer
  undo_and_release-lock session s t e h =
      let (_, s', e', h') = bind-eq-done (run_undo session.undo_commit_operation s) _ h in
      ground (arith, run_undo-KeepsLock session.undo_commit_operation s tt s' e')

  dispatch-lock :
      (status : Status) (session : Session) (name : Bytes) (arguments : List Bytes) (s : Store)
      (r : List Bytes × Turn) (t : Store)
      → session.status ≡ status
      → s.access_data ≡ access_after (awaits status) a
      → dispatch status session name arguments s ≡ done r t
      → t.access_data ≡ access_after (keeps_lock r.1) a
  unfolding dispatch release_write_lock leave_writer precommit_with
  dispatch-lock idle session name [] s r t q e h = ground arith
  dispatch-lock idle session name (x ∷ xs) s r t q e h = ground arith
  dispatch-lock precommit_acknowledged session name xs s r t q e h =
      ground (arith, commit_with-lock session xs s r t)
  dispatch-lock awaiting_decision session name xs s r t q e h =
      elim (Bool-cases (str_eq name (codes "SUCCESS_NOOP"))) [
        | inl yes' ↦ ground arith
        | inr no' ↦ elim (Bool-cases (str_eq name (codes "UNSUCCESS_UNDO"))) [
          | inl undo ↦
              let h' : bind (undo_and_release session s) (λ _. sent_in [] leave) ≡ done r t =
                ground arith in
              let (_, s', e', last) = bind-eq-done (undo_and_release session s) _ h' in
              ground (arith, undo_and_release-lock session s s' e e')
          | inr other ↦ ground arith
        ]
      ]

  handle_tokens-lock :
      (session : Session) (tokens : List Bytes) (s : Store) (r : List Bytes × Turn) (t : Store)
      → s.access_data ≡ access_after (awaits session.status) a
      → handle_tokens session tokens s ≡ done r t
      → t.access_data ≡ access_after (keeps_lock r.1) a
  unfolding handle_tokens
  handle_tokens-lock session [] s r t e h = cc
  handle_tokens-lock session (x ∷ []) s r t e h = cc
  handle_tokens-lock session (x ∷ name ∷ arguments) s r t e h =
      dispatch-lock session.status session name arguments s r t refl e h

  handle_request-lock :
      (session : Session) (request : Option Bytes) (s : Store) (r : List Bytes × Turn) (t : Store)
      → s.access_data ≡ access_after (awaits session.status) a
      → handle_request session request s ≡ done r t
      → t.access_data ≡ access_after (keeps_lock r.1) a
  unfolding handle_request
  handle_request-lock session none s r t e h = cc
  handle_request-lock session (some q) s r t e h =
      handle_tokens-lock session (tokenize q b' ') s r t e h

  pub handle_chunk-lock :
      (session : Session) (chunk : Bytes) (s : Store) (r : List Bytes × Turn) (t : Store)
      → s.access_data ≡ access_after (awaits session.status) a
      → handle_chunk session chunk s ≡ done r t
      → t.access_data ≡ access_after (keeps_lock r.1) a
  unfolding handle_chunk
  handle_chunk-lock session chunk s r t e h =
      handle_request-lock session (terminate chunk) s r t e h

  pub abandon-lock :
      (status : Status) (session : Session) (s t : Store)
      → s.access_data ≡ access_after (awaits status) a
      → abandon status session s ≡ done tt t
      → t.access_data ≡ a
  unfolding abandon
  abandon-lock idle session s t e h = ground arith
  abandon-lock precommit_acknowledged session s t e h = ground arith
  abandon-lock awaiting_decision session s t e h = undo_and_release-lock session s t e h
