-- ===== src/SyncServer/Releases.antt =====
-- Whole connections give the write lock back.
use bulletin_board.Base.{◌≡◌, List, [], ◌∷◌, arith}
use bulletin_board.Text.{Bytes}
use bulletin_board.LineReader.{Receipt, no_data, failed, received}
use bulletin_board.Lock.{AccessData}
use bulletin_board.Store.{bind-eq-done, Store, Result, done, bind, pure}
use bulletin_board.BoardFile.State.{IsFree, access_after}
use bulletin_board.SyncServer.{Session, Turn, next, leave, handle_chunk, follow, abandon, serve}
use bulletin_board.SyncServer.Discipline.{awaits, keeps_lock, handle_chunk-lock, abandon-lock}

-- No call of recv_nonblock fails.
abbrev pub NoneFails : List Receipt → Type 0
NoneFails [] = Unit
NoneFails (failed ∷ rs) = ⊥
NoneFails (r ∷ rs) = NoneFails rs

abandoned :
    (a : AccessData) (free : IsFree a) (session : Session) (s : Store) (m : List Bytes) (t : Store)
    → s.access_data ≡ access_after (awaits session.status) a
    → bind (abandon session.status session s) (λ _. pure []) ≡ done m t
    → t.access_data ≡ a
abandoned a free session s m t e h =
    let (_, s', e', last) = bind-eq-done (abandon session.status session s) _ h in
    ground (arith, abandon-lock a free session.status session s s' e e')

follow-lock :
    (a : AccessData) (again : Session → Store → Result (List Bytes))
    → ((session : Session) (s : Store) (m : List Bytes) (t : Store)
        → s.access_data ≡ access_after (awaits session.status) a
        → again session s ≡ done m t
        → t.access_data ≡ a)
    → (sent : List Bytes) (turn : Turn) (s : Store) (m : List Bytes) (t : Store)
    → s.access_data ≡ access_after (keeps_lock turn) a
    → follow again sent turn s ≡ done m t
    → t.access_data ≡ a
unfolding follow
follow-lock a again ih sent leave s m t e h = ground arith
follow-lock a again ih sent (next session) s m t e h =
    let (rest, s', e', last) = bind-eq-done (again session s) _ h in
    ground (arith, ih session s rest s' e e')

-- Whatever the master sends, and however the connection ends but by a failed receive, a call that
-- returns has given the write lock back: the lock's data is as before the connection.
pub serve_releases :
    (rs : List Receipt) (a : AccessData) (session : Session) (s : Store) (m : List Bytes)
    (t : Store)
    → IsFree a
    → s.access_data ≡ access_after (awaits session.status) a
    → NoneFails rs
    → serve session rs s ≡ done m t
    → t.access_data ≡ a
unfolding serve
serve_releases [] a session s m t free e nf h = abandoned a free session s m t e h
serve_releases (no_data ∷ rs) a session s m t free e nf h = abandoned a free session s m t e h
serve_releases (failed ∷ rs) a session s m t free e nf h = absurd nf
serve_releases (received [] ∷ rs) a session s m t free e nf h = abandoned a free session s m t e h
serve_releases (received (c ∷ chunk) ∷ rs) a session s m t free e nf h =
    let (r, s', e', last) = bind-eq-done (handle_chunk session (c ∷ chunk) s) _ h in
    follow-lock a (λ session'. serve session' rs)
      (λ session' s m t e h. serve_releases rs a session' s m t free e nf h) r.0 r.1 s' m t
      (handle_chunk-lock a free session (c ∷ chunk) s r s' e e') last
