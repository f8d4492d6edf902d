-- ===== src/SyncServer/Decision.antt =====
-- What the slave does with an operation that it has carried out: the master's decision, or its
-- silence, settles it.
use bulletin_board.Base.{ℕ, ◌≡◌, ◌≢◌, refl, false, some, List, [], ◌∷◌, ◌++◌, arith}
use bulletin_board.Text.{Bytes, codes, tokenize, str_eq, socket_message}
use bulletin_board.LineReader.{Receipt, no_data, received}
use bulletin_board.Lock.{leave_writer}
use bulletin_board.Store.{Store, done, release_write_lock}
use bulletin_board.BoardFile.{run_undo}
use bulletin_board.SyncServer.{
  awaiting_decision, Session, next, leave, undo_and_release, dispatch, handle_tokens,
  handle_request, handle_chunk, follow, abandon, serve, terminate,
}

-- The messages of the master that carry no argument, as sendMessage sends them.
abbrev pub success_noop : Bytes
success_noop = socket_message 50 (codes "SUCCESS_NOOP") []

abbrev pub unsuccess_undo : Bytes
unsuccess_undo = socket_message 50 (codes "UNSUCCESS_UNDO") []

abbrev pub abort : Bytes
abort = socket_message 50 (codes "ABORT") []

-- A message that the slave passes over while it awaits the decision.
pub record IsOther (chunk : Bytes) : Type 0 where
  pub request : Bytes
  pub code : Bytes
  pub name : Bytes
  pub arguments : List Bytes
  pub terminated : terminate chunk ≡ some request
  pub tokens : tokenize request b' ' ≡ code ∷ name ∷ arguments
  pub no_success : str_eq name (codes "SUCCESS_NOOP") ≡ false
  pub no_undo : str_eq name (codes "UNSUCCESS_UNDO") ≡ false

pub data Verdict : Type 0 where
  keep : Verdict
  undone : Verdict

-- The first of what comes in that decides: SUCCESS_NOOP keeps the operation; UNSUCCESS_UNDO, seven
-- seconds of silence and a closed connection undo it.
pub data Decides : List Receipt → Verdict → Type 0 where
  silence : Decides [] undone
  timed_out : {rs : List Receipt} → Decides (no_data ∷ rs) undone
  closed : {rs : List Receipt} → Decides (received [] ∷ rs) undone
  confirmed : {rs : List Receipt} → Decides (received success_noop ∷ rs) keep
  refused : {rs : List Receipt} → Decides (received unsuccess_undo ∷ rs) undone
  other :
      {c : ℕ} {chunk : Bytes} {rs : List Receipt} {v : Verdict}
      → IsOther (c ∷ chunk)
      → Decides rs v
      → Decides (received (c ∷ chunk) ∷ rs) v

-- The lock given back.
abbrev pub released : Store → Store
released s = record s { access_data = leave_writer s.access_data }

abbrev pub settled : Verdict → Store → Store → Store
settled keep kept undone' = released kept
settled undone kept undone' = released undone'

-- A turn that leaves the loop ends the call.
pub serve_left :
    (session : Session) (chunk : Bytes) (rs : List Receipt) (s t : Store) (m : List Bytes)
    → chunk ≢ []
    → handle_chunk session chunk s ≡ done (m, leave) t
    → serve session (received chunk ∷ rs) s ≡ done m t
unfolding serve follow
serve_left session [] rs s t m ne h = absurd (ne refl)
serve_left session (c ∷ chunk) rs s t m ne h = ground arith

-- A turn that does not is followed by the rest.
pub serve_goes_on :
    (session session' : Session) (chunk : Bytes) (rs : List Receipt) (s s' t : Store)
    (m rest : List Bytes)
    → chunk ≢ []
    → handle_chunk session chunk s ≡ done (m, next session') s'
    → serve session' rs s' ≡ done rest t
    → serve session (received chunk ∷ rs) s ≡ done (m ++ rest) t
unfolding serve follow
serve_goes_on session session' [] rs s s' t m rest ne h k = absurd (ne refl)
serve_goes_on session session' (c ∷ chunk) rs s s' t m rest ne h k = ground arith

module _ (session : Session) (s s' : Store) (awaiting : session.status ≡ awaiting_decision)
    (undoes : run_undo session.undo_commit_operation s ≡ done tt s') where
  undo_and_release_lem : undo_and_release session s ≡ done tt (released s')
  unfolding undo_and_release release_write_lock
  undo_and_release_lem = ground (arith, undoes)

  abandon_lem : abandon session.status session s ≡ done tt (released s')
  unfolding abandon
  abandon_lem = ground (arith, undo_and_release_lem)

  success_turn : handle_chunk session success_noop s ≡ done ([], leave) (released s)
  unfolding handle_chunk handle_request handle_tokens dispatch terminate tokenize socket_message
      release_write_lock
  success_turn = ground arith

  undo_turn : handle_chunk session unsuccess_undo s ≡ done ([], leave) (released s')
  unfolding handle_chunk handle_request handle_tokens dispatch terminate tokenize socket_message
  undo_turn = ground (arith, undo_and_release_lem)

  other_turn :
      (chunk : Bytes) → IsOther chunk → handle_chunk session chunk s ≡ done ([], next session) s
  unfolding handle_chunk handle_request handle_tokens dispatch
  other_turn chunk o = ground (arith, o.terminated, o.tokens, o.no_success, o.no_undo)

  -- A slave that awaits the decision ends with the operation kept or undone as the first deciding
  -- receipt says, with the write lock given back, and sends nothing more.
  pub serve-Decides :
      {rs : List Receipt} {v : Verdict}
      → Decides rs v
      → serve session rs s ≡ done [] (settled v s s')
  unfolding serve socket_message
  serve-Decides silence = ground (arith, abandon_lem)
  serve-Decides timed_out = ground (arith, abandon_lem)
  serve-Decides closed = ground (arith, abandon_lem)
  serve-Decides (confirmed {rs}) =
      serve_left session success_noop rs s (released s) [] (ground arith) success_turn
  serve-Decides (refused {rs}) =
      serve_left session unsuccess_undo rs s (released s') [] (ground arith) undo_turn
  serve-Decides (other {c} {chunk} {rs} {v} o d) =
      serve_goes_on session session (c ∷ chunk) rs s s (settled v s s') [] [] (ground arith)
        (other_turn (c ∷ chunk) o) (serve-Decides d)
