-- ===== src/PeerCommunication/Steps.antt =====
-- The steps of a transaction that are not passed over are bounded.
use bulletin_board.Base.{
  ℕ, suc, ◌+◌, ◌*◌, ◌≤◌, ◌<◌, ◌≡◌, Bool, true, false, some, arith, get_elem?, set, replicate,
  if◌then◌else◌,
}
use bulletin_board.Base.Counting.{total, total-set, total-replicate}
use bulletin_board.Text.{Bytes}
use bulletin_board.Store.{Store}
use bulletin_board.PeerCommunication.{
  new_statistics, confirms, confirmed, undone, Phase, connecting, awaits_ready, ready_waits,
  ready_counted, awaits_commit, commit_waits, commit_counted, commit_agreed, operated, ended,
}
use bulletin_board.PeerCommunication.Threads.{
  Shared, Move, pass_ready, receive_ready, pass_commit, receive_success, send_decision, System,
}

-- How far a thread is from its end.
abbrev pub ahead : Phase → ℕ
ahead connecting = 9
ahead awaits_ready = 8
ahead ready_waits = 7
ahead ready_counted = 6
ahead awaits_commit = 5
ahead commit_waits = 4
ahead commit_counted = 3
ahead commit_agreed = 2
ahead operated = 1
ahead (ended _) = 0

-- Whether a step is an answer that is passed over.
abbrev pub passes :
    {user command : Bytes} {s s' : Shared} {p p' : Phase} → Move user command s p s' p' → Bool
passes (pass_ready r e) = true
passes (pass_commit r e) = true
passes _ = false

waiting_ahead :
    (b : Bool)
    → (ahead (if b then ready_waits else ready_counted) < 8)
      × (ahead (if b then commit_waits else commit_counted) < 5)
waiting_ahead true = (omega arith, omega arith)
waiting_ahead false = (omega arith, omega arith)

decision_ahead : (b : Bool) → ahead (if b then ended confirmed else ended undone) < 1
decision_ahead true = omega arith
decision_ahead false = omega arith

Move-ahead :
    {user command : Bytes} {s s' : Shared} {p p' : Phase} (m : Move user command s p s' p')
    → passes m ≡ false
    → ahead p' < ahead p
Move-ahead (receive_ready r e) h = (waiting_ahead _).0
Move-ahead (receive_success r e) h = (waiting_ahead _).1
Move-ahead {s} send_decision h = decision_ahead (confirms s.statistics)
Move-ahead (pass_ready r e) h = cc
Move-ahead (pass_commit r e) h = cc
Move-ahead _ h = omega arith

-- A step of one thread, but for the answers that are passed over.
pub data Advance (user command : Bytes) (s : System) : System → Type 0 where
  advance :
      (i : ℕ) {p p' : Phase} {s' : Shared}
      → get_elem? s.threads i ≡ some p
      → (m : Move user command s.shared p s' p') → passes m ≡ false
      → Advance user command s (record { shared = s'; threads = set s.threads i p' })

Advance-ahead :
    {user command : Bytes} {s t : System}
    → Advance user command s t
    → total ahead t.threads < total ahead s.threads
Advance-ahead {s} (advance i {p} {p'} at m h) =
    omega (arith, total-set ahead s.threads i p p' at, Move-ahead m h)

-- `n` of them in a row.
pub data Advances (user command : Bytes) : ℕ → System → System → Type 0 where
  here : {s : System} → Advances user command 0 s s
  further :
      {n : ℕ} {s t u : System}
      → Advance user command s t
      → Advances user command n t u
      → Advances user command (suc n) s u

Advances-ahead :
    {user command : Bytes} {n : ℕ} {s t : System}
    → Advances user command n s t
    → n + total ahead t.threads ≤ total ahead s.threads
Advances-ahead here = omega arith
Advances-ahead (further a more) = omega (arith, Advance-ahead a, Advances-ahead more)

-- From the start of a transaction with `peers` peers there are at most 9 steps for each, apart from
-- the answers that are passed over: no schedule keeps the threads going for ever.
pub steps_bounded :
    (user command : Bytes) (n peers : ℕ) (store : Store) (t : System)
    → Advances user command n
        (record {
          shared = record { statistics = new_statistics peers; store = store };
          threads = replicate peers connecting;
        })
        t
    → n ≤ peers * 9
steps_bounded user command n peers store t run =
    omega (arith, Advances-ahead run, total-replicate ahead peers 9 connecting (omega arith))
