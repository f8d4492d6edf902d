-- ===== src/Transaction/Slave.antt =====
-- A slave that hears what one thread of the master has sent.
use bulletin_board.Base.{◌≡◌, refl, List, [], ◌∷◌, arith}
use bulletin_board.Text.{Bytes, tokenize, socket_message}
use bulletin_board.LineReader.{Receipt, received}
use bulletin_board.Store.{Store, done}
use bulletin_board.SyncServer.{
  new_session, leave, serve, abandon, handle_chunk, handle_request, handle_tokens, dispatch,
  terminate,
}
use bulletin_board.SyncServer.Decision.{
  Verdict, keep, undone, Decides, abort, serve_left, serve_goes_on,
}
use bulletin_board.SyncServer.Decision
use bulletin_board.SyncServer.Flows.{
  IsArgument, precommit_message, acknowledged, precommit_turn, precommit_message-nonempty,
}
use bulletin_board.PeerCommunication.{
  unreached, unready, broken, aborted, refused, unanswered, broken_commit, confirmed, Ending, ended,
}
use bulletin_board.PeerCommunication
use bulletin_board.Transaction.Change.{Change, EndsWith, decided}
use bulletin_board.Transaction.{Hears, silent, timed_out, closed, hears, conversation, verdict_of}

-- The end of a connection undoes what awaits a decision.
Hears-Decides : {rs : List Receipt} → Hears [] rs → Decides rs undone
Hears-Decides silent = Decision.silence
Hears-Decides timed_out = Decision.timed_out
Hears-Decides closed = Decision.closed

serve-idle : {rs : List Receipt} (s : Store) → Hears [] rs → serve new_session rs s ≡ done [] s
unfolding serve abandon
serve-idle s silent = refl
serve-idle s timed_out = refl
serve-idle s closed = refl

serve-acknowledged :
    {rs : List Receipt} (user : Bytes) (s : Store)
    → Hears [] rs
    → serve (acknowledged user) rs s ≡ done [] s
unfolding serve abandon
serve-acknowledged user s silent = refl
serve-acknowledged user s timed_out = refl
serve-acknowledged user s closed = refl

abort_turn :
    (user : Bytes) (s : Store) → handle_chunk (acknowledged user) abort s ≡ done ([], leave) s
unfolding handle_chunk handle_request handle_tokens dispatch terminate tokenize socket_message
abort_turn user s = ground arith

precommitted :
    (user : Bytes) (rs : List Receipt) (s t : Store)
    → IsArgument user
    → (m : List Bytes) × (serve (acknowledged user) rs s ≡ done m t)
    → EndsWith (received (precommit_message user) ∷ rs) s t
precommitted user rs s t u (m, e) = (
  _,
  serve_goes_on new_session (acknowledged user) (precommit_message user) rs s s t _ m
      (precommit_message-nonempty user) (precommit_turn user s u) e,
)

module _ (user : Bytes) (c : Change user) (s : Store) (u : IsArgument user)
    (h : c.IsHealthy s) where
  -- A slave that hears a whole conversation ends with its board changed if the thread has confirmed,
  -- and with its board as it was if not.
  pub Hears-outcome :
      (e : Ending) {rs : List Receipt}
      → Hears (conversation user c.command (ended e)) rs
      → EndsWith rs s (decided (verdict_of e) (c.changed s) s)
  unfolding conversation
  Hears-outcome unreached k = ([], serve-idle s k)
  Hears-outcome unready (hears k) = precommitted user _ s s u ([], serve-acknowledged user s k)
  Hears-outcome broken (hears k) = precommitted user _ s s u ([], serve-acknowledged user s k)
  Hears-outcome aborted (hears (hears {rs} k)) = precommitted user _ s s u (
    [],
    serve_left (acknowledged user) abort rs s s [] (unfold socket_message in ground arith)
        (abort_turn user s),
  )
  Hears-outcome refused (hears (hears k)) = c.connection s _ undone h (Hears-Decides k)
  Hears-outcome unanswered (hears (hears k)) = c.connection s _ undone h (Hears-Decides k)
  Hears-outcome broken_commit (hears (hears k)) = c.connection s _ undone h (Hears-Decides k)
  Hears-outcome confirmed (hears (hears (hears k))) = c.connection s _ keep h Decision.confirmed
  Hears-outcome PeerCommunication.undone (hears (hears (hears k))) =
      c.connection s _ undone h Decision.refused
