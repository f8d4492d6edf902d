-- ===== src/PeerCommunication/Outcome.antt =====
-- The second phase: when the master carries the command out, and what it tells its peers.
use bulletin_board.Base.{
  ℕ, ◌+◌, ◌≤◌, ◌<◌, ◌≡◌, ◌⊎◌, refl, sym, Bool, true, false, some, List, arith, if◌then◌else◌,
  get_elem?, set, replicate,
}
use bulletin_board.Base.Counting.{
  total, total-set, total-replicate_one, total-replicate_zero, total-le,
}
use bulletin_board.Text.{Bytes}
use bulletin_board.Store.{Store}
use bulletin_board.SyncServer.{operation_failed}
use bulletin_board.PeerCommunication.Responses.{local_operation-Answer}
use bulletin_board.Text.{is_empty}
use bulletin_board.PeerCommunication.{
  Statistics, new_statistics, notify_threads_to_abort, notify_threads_to_undo_commit,
  acknowledge_ready, waits_for_ready, acknowledge_commit, waits_for_commit, confirms, refused,
  unanswered, confirmed, undone, Phase, connecting, awaits_ready, ready_waits, ready_counted,
  awaits_commit, commit_waits, commit_counted, commit_agreed, operated, ended,
}
use bulletin_board.PeerCommunication.Threads.{
  Shared, Move, receive_ready, receive_success, wake_commit, skip_operation, agree, find_operated,
  operate, send_decision, System, step, Reach, start, later,
}

-- A thread whose peer has not answered COMMIT_SUCCESS.
abbrev pub not_done : Phase → ℕ
not_done commit_waits = 0
not_done commit_counted = 0
not_done commit_agreed = 0
not_done operated = 0
not_done (ended confirmed) = 0
not_done (ended undone) = 0
not_done _ = 1

-- A thread that has asked the others to undo.
abbrev pub failing : Phase → ℕ
failing (ended refused) = 1
failing (ended unanswered) = 1
failing _ = 0

abbrev pub at_commit_counted : Phase → ℕ
at_commit_counted commit_counted = 1
at_commit_counted _ = 0

abbrev pub at_commit_agreed : Phase → ℕ
at_commit_agreed commit_agreed = 1
at_commit_agreed _ = 0

abbrev pub at_operated : Phase → ℕ
at_operated operated = 1
at_operated _ = 0

abbrev pub at_confirmed : Phase → ℕ
at_confirmed (ended confirmed) = 1
at_confirmed _ = 0

abbrev pub at_undone : Phase → ℕ
at_undone (ended undone) = 1
at_undone _ = 0

pub record OutcomeInv (st : Statistics) (ts : List Phase) : Type 0 where
  pub pending : st.commit_pending ≡ total not_done ts
  pub fails : st.did_fail ≡ true → 0 < total failing ts
  pub fails_set : 0 < total failing ts → st.did_fail ≡ true
  pub counted : 0 < total at_commit_counted ts → waits_for_commit st ≡ false
  pub agreed : 0 < total at_commit_agreed ts → st.commit_pending ≡ 0
  pub completed : is_empty st.completion ≡ false → st.commit_pending ≡ 0
  pub operated_first :
      0 < total at_operated ts → (st.did_fail ≡ true) ⊎ (is_empty st.completion ≡ false)
  pub confirms_all :
      0 < total at_confirmed ts
      → (is_empty st.completion ≡ false) × (operation_failed st.completion ≡ false)
  pub undoes :
      0 < total at_undone ts
      → (st.did_fail ≡ true)
        ⊎ ((is_empty st.completion ≡ false) × (operation_failed st.completion ≡ true))

-- One thread goes from `p` to `p'`.
record Counts (ts ts' : List Phase) (p p' : Phase) : Type 0 where
  undone_count : total not_done ts' + not_done p ≡ total not_done ts + not_done p'
  failing_count : total failing ts' + failing p ≡ total failing ts + failing p'
  counted_count :
      total at_commit_counted ts' + at_commit_counted p
      ≡ total at_commit_counted ts + at_commit_counted p'
  agreed_count :
      total at_commit_agreed ts' + at_commit_agreed p
      ≡ total at_commit_agreed ts + at_commit_agreed p'
  operated_count : total at_operated ts' + at_operated p ≡ total at_operated ts + at_operated p'
  confirmed_count :
      total at_confirmed ts' + at_confirmed p ≡ total at_confirmed ts + at_confirmed p'
  undone_end_count : total at_undone ts' + at_undone p ≡ total at_undone ts + at_undone p'
  failing_le : total failing ts ≤ total not_done ts
  failing_le' : total failing ts' ≤ total not_done ts'

pub failing-le-not_done : (p : Phase) → failing p ≤ not_done p
failing-le-not_done (ended refused) = omega arith
failing-le-not_done (ended unanswered) = omega arith
failing-le-not_done _ = omega arith

counts :
    (ts : List Phase) (i : ℕ) (p p' : Phase)
    → get_elem? ts i ≡ some p
    → Counts ts (set ts i p') p p'
counts ts i p p' e = record {
  undone_count = total-set not_done ts i p p' e;
  failing_count = total-set failing ts i p p' e;
  counted_count = total-set at_commit_counted ts i p p' e;
  agreed_count = total-set at_commit_agreed ts i p p' e;
  operated_count = total-set at_operated ts i p p' e;
  confirmed_count = total-set at_confirmed ts i p p' e;
  undone_end_count = total-set at_undone ts i p p' e;
  failing_le = total-le failing not_done failing-le-not_done ts;
  failing_le' = total-le failing not_done failing-le-not_done (set ts i p');
}

ready-OutcomeInv :
    (st : Statistics) (ts ts' : List Phase) (b : Bool)
    → Counts ts ts' awaits_ready (if b then ready_waits else ready_counted)
    → OutcomeInv st ts
    → OutcomeInv (acknowledge_ready st) ts'
unfolding waits_for_commit acknowledge_ready
ready-OutcomeInv st ts ts' true c inv = ground arith
ready-OutcomeInv st ts ts' false c inv = ground arith

commit-OutcomeInv :
    (st : Statistics) (ts ts' : List Phase) (b : Bool)
    → waits_for_commit (acknowledge_commit st) ≡ b
    → Counts ts ts' awaits_commit (if b then commit_waits else commit_counted)
    → OutcomeInv st ts
    → OutcomeInv (acknowledge_commit st) ts'
unfolding waits_for_commit acknowledge_commit
commit-OutcomeInv st ts ts' true e c inv = ground arith
commit-OutcomeInv st ts ts' false e c inv = ground arith

decision-OutcomeInv :
    (st : Statistics) (ts ts' : List Phase) (b : Bool)
    → confirms st ≡ b
    → Counts ts ts' operated (if b then ended confirmed else ended undone)
    → OutcomeInv st ts
    → OutcomeInv st ts'
unfolding confirms
decision-OutcomeInv st ts ts' true e c inv = ground arith
decision-OutcomeInv st ts ts' false e c inv = ground arith

Move-OutcomeInv :
    {user command : Bytes} {s s' : Shared} {p p' : Phase} (ts ts' : List Phase)
    → Move user command s p s' p'
    → Counts ts ts' p p'
    → OutcomeInv s.statistics ts
    → OutcomeInv s'.statistics ts'
unfolding waits_for_commit notify_threads_to_abort notify_threads_to_undo_commit
Move-OutcomeInv {s} ts ts' (receive_ready r e) c inv =
    ready-OutcomeInv s.statistics ts ts' (waits_for_ready (acknowledge_ready s.statistics)) c inv
Move-OutcomeInv {s} ts ts' (receive_success r e) c inv =
    commit-OutcomeInv s.statistics ts ts' (waits_for_commit (acknowledge_commit s.statistics)) refl
      c inv
Move-OutcomeInv {s} ts ts' send_decision c inv =
    decision-OutcomeInv s.statistics ts ts' (confirms s.statistics) refl c inv
Move-OutcomeInv {user} {command} {s} ts ts' (operate {response} {store} e h) c inv =
    let answer = local_operation-Answer user command s.store response store h in ground arith
Move-OutcomeInv ts ts' (wake_commit h) c inv = ground arith
Move-OutcomeInv ts ts' (skip_operation h) c inv = ground arith
Move-OutcomeInv ts ts' (agree h) c inv = ground arith
Move-OutcomeInv ts ts' (find_operated h) c inv = ground arith
Move-OutcomeInv ts ts' _ c inv = ground arith

OutcomeInv-start : (n : ℕ) → OutcomeInv (new_statistics n) (replicate n connecting)
OutcomeInv-start n = record {
  pending = sym (total-replicate_one not_done n connecting refl);
  fails = λ e. cc;
  fails_set = λ lt. absurd (omega (arith, total-replicate_zero failing n connecting refl));
  counted = λ lt. absurd (omega (arith, total-replicate_zero at_commit_counted n connecting refl));
  agreed = λ lt. absurd (omega (arith, total-replicate_zero at_commit_agreed n connecting refl));
  completed = λ e. cc;
  operated_first = λ lt. absurd (omega (arith, total-replicate_zero at_operated n connecting refl));
  confirms_all = λ lt. absurd (omega (arith, total-replicate_zero at_confirmed n connecting refl));
  undoes = λ lt. absurd (omega (arith, total-replicate_zero at_undone n connecting refl));
}

pub Reach-OutcomeInv :
    {user command : Bytes} {peers : ℕ} {store : Store} {s : System}
    → Reach user command peers store s
    → OutcomeInv s.shared.statistics s.threads
Reach-OutcomeInv {peers} start = OutcomeInv-start peers
Reach-OutcomeInv (later {s} r (step i {p} {p'} at m)) =
    Move-OutcomeInv s.threads (set s.threads i p') m (counts s.threads i p p' at)
      (Reach-OutcomeInv r)
