-- ===== src/PeerCommunication/Votes.antt =====
-- The first phase: how many peers have yet to answer READY, and when COMMIT and ABORT are sent.
use bulletin_board.Base.{
  ℕ, ◌+◌, ◌≤◌, ◌<◌, ◌≡◌, refl, sym, Bool, true, false, some, List, arith, if◌then◌else◌, get_elem?,
  set, replicate,
}
use bulletin_board.Base.Counting.{
  total, total-set, total-replicate_one, total-replicate_zero, total-le, le-total,
}
use bulletin_board.Text.{Bytes}
use bulletin_board.Store.{Store}
use bulletin_board.PeerCommunication.{
  Statistics, new_statistics, notify_threads_to_abort, notify_threads_to_undo_commit,
  acknowledge_ready, waits_for_ready, acknowledge_commit, waits_for_commit, confirms, unreached,
  unready, broken, aborted, refused, unanswered, broken_commit, confirmed, undone, Phase,
  connecting, awaits_ready, ready_waits, ready_counted, awaits_commit, commit_waits, commit_counted,
  commit_agreed, operated, ended,
}
use bulletin_board.PeerCommunication.Threads.{
  Shared, Move, receive_ready, wake_ready, send_abort, send_commit, receive_success, send_decision,
  System, step, Reach, start, later,
}

-- A thread whose peer has not answered READY.
abbrev pub not_ready : Phase → ℕ
not_ready connecting = 1
not_ready awaits_ready = 1
not_ready (ended unreached) = 1
not_ready (ended unready) = 1
not_ready (ended broken) = 1
not_ready _ = 0

-- A thread that has asked the others to abort.
abbrev pub aborting : Phase → ℕ
aborting (ended unreached) = 1
aborting (ended unready) = 1
aborting _ = 0

abbrev pub at_ready_counted : Phase → ℕ
at_ready_counted ready_counted = 1
at_ready_counted _ = 0

abbrev pub at_aborted : Phase → ℕ
at_aborted (ended aborted) = 1
at_aborted _ = 0

-- A thread that has sent COMMIT.
abbrev pub has_committed : Phase → ℕ
has_committed awaits_commit = 1
has_committed commit_waits = 1
has_committed commit_counted = 1
has_committed commit_agreed = 1
has_committed operated = 1
has_committed (ended refused) = 1
has_committed (ended unanswered) = 1
has_committed (ended broken_commit) = 1
has_committed (ended confirmed) = 1
has_committed (ended undone) = 1
has_committed _ = 0

pub record VoteInv (st : Statistics) (ts : List Phase) : Type 0 where
  pub pending : st.ready_pending ≡ total not_ready ts
  pub aborts : st.should_abort ≡ true → 0 < total aborting ts
  pub aborts_set : 0 < total aborting ts → st.should_abort ≡ true
  pub counted : 0 < total at_ready_counted ts → waits_for_ready st ≡ false
  pub committed : 0 < total has_committed ts → st.ready_pending ≡ 0
  pub abort_sent : 0 < total at_aborted ts → st.should_abort ≡ true

-- One thread goes from `p` to `p'`.
record Counts (ts ts' : List Phase) (p p' : Phase) : Type 0 where
  unready_count : total not_ready ts' + not_ready p ≡ total not_ready ts + not_ready p'
  aborting_count : total aborting ts' + aborting p ≡ total aborting ts + aborting p'
  counted_count :
      total at_ready_counted ts' + at_ready_counted p
      ≡ total at_ready_counted ts + at_ready_counted p'
  aborted_count : total at_aborted ts' + at_aborted p ≡ total at_aborted ts + at_aborted p'
  committed_count :
      total has_committed ts' + has_committed p ≡ total has_committed ts + has_committed p'

counts :
    (ts : List Phase) (i : ℕ) (p p' : Phase)
    → get_elem? ts i ≡ some p
    → Counts ts (set ts i p') p p'
counts ts i p p' e = record {
  unready_count = total-set not_ready ts i p p' e;
  aborting_count = total-set aborting ts i p p' e;
  counted_count = total-set at_ready_counted ts i p p' e;
  aborted_count = total-set at_aborted ts i p p' e;
  committed_count = total-set has_committed ts i p p' e;
}

-- The READY of one thread, whether it waits for the others or not.
ready-VoteInv :
    (st : Statistics) (ts ts' : List Phase) (b : Bool)
    → waits_for_ready (acknowledge_ready st) ≡ b
    → Counts ts ts' awaits_ready (if b then ready_waits else ready_counted)
    → VoteInv st ts
    → VoteInv (acknowledge_ready st) ts'
unfolding waits_for_ready acknowledge_ready
ready-VoteInv st ts ts' true e c inv = ground arith
ready-VoteInv st ts ts' false e c inv = ground arith

commit-VoteInv :
    (st : Statistics) (ts ts' : List Phase) (b : Bool)
    → Counts ts ts' awaits_commit (if b then commit_waits else commit_counted)
    → VoteInv st ts
    → VoteInv (acknowledge_commit st) ts'
unfolding waits_for_ready acknowledge_commit
commit-VoteInv st ts ts' true c inv = ground arith
commit-VoteInv st ts ts' false c inv = ground arith

decision-VoteInv :
    (st : Statistics) (ts ts' : List Phase) (b : Bool)
    → Counts ts ts' operated (if b then ended confirmed else ended undone)
    → VoteInv st ts
    → VoteInv st ts'
decision-VoteInv st ts ts' true c inv = ground arith
decision-VoteInv st ts ts' false c inv = ground arith

Move-VoteInv :
    {user command : Bytes} {s s' : Shared} {p p' : Phase} (ts ts' : List Phase)
    → Move user command s p s' p'
    → Counts ts ts' p p'
    → VoteInv s.statistics ts
    → VoteInv s'.statistics ts'
unfolding waits_for_ready notify_threads_to_abort notify_threads_to_undo_commit
Move-VoteInv {s} ts ts' (receive_ready r e) c inv =
    ready-VoteInv s.statistics ts ts' (waits_for_ready (acknowledge_ready s.statistics)) refl c inv
Move-VoteInv {s} ts ts' (receive_success r e) c inv =
    commit-VoteInv s.statistics ts ts' (waits_for_commit (acknowledge_commit s.statistics)) c inv
Move-VoteInv {s} ts ts' send_decision c inv =
    decision-VoteInv s.statistics ts ts' (confirms s.statistics) c inv
Move-VoteInv ts ts' (wake_ready h) c inv = ground arith
Move-VoteInv ts ts' (send_abort h) c inv = ground arith
Move-VoteInv ts ts' (send_commit h) c inv = ground arith
Move-VoteInv ts ts' _ c inv = ground arith

VoteInv-start : (n : ℕ) → VoteInv (new_statistics n) (replicate n connecting)
VoteInv-start n = record {
  pending = sym (total-replicate_one not_ready n connecting refl);
  aborts = λ e. cc;
  aborts_set = λ lt. absurd (omega (arith, total-replicate_zero aborting n connecting refl));
  counted = λ lt. absurd (omega (arith, total-replicate_zero at_ready_counted n connecting refl));
  committed = λ lt. absurd (omega (arith, total-replicate_zero has_committed n connecting refl));
  abort_sent = λ lt. absurd (omega (arith, total-replicate_zero at_aborted n connecting refl));
}

pub Reach-VoteInv :
    {user command : Bytes} {peers : ℕ} {store : Store} {s : System}
    → Reach user command peers store s
    → VoteInv s.shared.statistics s.threads
Reach-VoteInv {peers} start = VoteInv-start peers
Reach-VoteInv (later {s} r (step i {p} {p'} at m)) =
    Move-VoteInv s.threads (set s.threads i p') m (counts s.threads i p p' at) (Reach-VoteInv r)

-- Every thread that asked to abort is one whose peer has not answered.
aborting-le-not_ready : (p : Phase) → aborting p ≤ not_ready p
aborting-le-not_ready (ended unreached) = omega arith
aborting-le-not_ready (ended unready) = omega arith
aborting-le-not_ready _ = omega arith

-- Who awaits READY is still counted, so that the count is not lowered below zero.
pub ready_pending-positive :
    {user command : Bytes} {peers : ℕ} {store : Store} {s : System} (i : ℕ)
    → Reach user command peers store s
    → get_elem? s.threads i ≡ some awaits_ready
    → 0 < s.shared.statistics.ready_pending
ready_pending-positive {s} i r h =
    omega (arith, (Reach-VoteInv r).pending, le-total not_ready s.threads i awaits_ready h)

-- As soon as one thread has sent COMMIT, the peers of all threads have answered READY.
pub commit_after_all_ready :
    {user command : Bytes} {peers : ℕ} {store : Store} {s : System} (i j : ℕ) {p q : Phase}
    → Reach user command peers store s
    → get_elem? s.threads i ≡ some p
    → has_committed p ≡ 1
    → get_elem? s.threads j ≡ some q
    → not_ready q ≡ 0
commit_after_all_ready {s} i j {p} {q} r h e k =
    let inv = Reach-VoteInv r in
    let none_pending = inv.committed (omega (arith, le-total has_committed s.threads i p h)) in
    omega (arith, none_pending, inv.pending, le-total not_ready s.threads j q k)

-- No two peers are told COMMIT and ABORT.
pub commit_excludes_abort :
    {user command : Bytes} {peers : ℕ} {store : Store} {s : System} (i j : ℕ) {p : Phase}
    → Reach user command peers store s
    → get_elem? s.threads i ≡ some p
    → has_committed p ≡ 1
    → ¬ (get_elem? s.threads j ≡ some (ended aborted))
commit_excludes_abort {s} i j {p} r h e k =
    let inv = Reach-VoteInv r in
    let none_pending = inv.committed (omega (arith, le-total has_committed s.threads i p h)) in
    let some_abort =
      inv.aborts
        (inv.abort_sent (omega (arith, le-total at_aborted s.threads j (ended aborted) k))) in
    omega (
      arith,
      none_pending,
      some_abort,
      inv.pending,
      total-le aborting not_ready aborting-le-not_ready s.threads,
    )
