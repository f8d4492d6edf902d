-- ===== src/PeerCommunication/Progress.antt =====
-- A transaction comes to its end: no state but a finished one is without a next step.
use bulletin_board.Base.{
  ℕ, ◌≤◌, ◌<◌, ◌≡◌, ◌≢◌, ◌⊎◌, inl, inr, refl, ap, ◌∙◌, Bool, true, false, some, arith, Bool-cases,
  get_elem?,
}
use bulletin_board.Base.Counting.{total, le-total, find}
use native.Mathlib.Decide.{ℕ_discrete}
use bulletin_board.Text.{Bytes}
use bulletin_board.LineReader.{no_data}
use bulletin_board.Store.{Store, done}
use bulletin_board.Text.{is_empty}
use bulletin_board.PeerCommunication.{
  no_answer, waits_for_commit, unreached, unready, broken, aborted, refused, unanswered,
  broken_commit, Ending, Phase, connecting, awaits_ready, ready_waits, ready_counted, awaits_commit,
  commit_waits, commit_counted, commit_agreed, operated, ended, local_operation, react,
  precommit_sent, commit_sent,
}
use bulletin_board.PeerCommunication.Threads.{
  Shared, Move, connect, lose_ready, wake_ready, send_abort, send_commit, lose_commit, wake_commit,
  skip_operation, agree, find_operated, operate, send_decision, System, Reach,
}
use bulletin_board.PeerCommunication.Votes.{commit_after_all_ready, commit_excludes_abort}
use bulletin_board.PeerCommunication.Waiters.{
  Blocks, still_connecting, still_awaiting, has_broken, ready_waiter,
}
use bulletin_board.PeerCommunication.Outcome.{not_done, failing, Reach-OutcomeInv}
use bulletin_board.PeerCommunication.Agreement.{Reach-BoardInv}
use bulletin_board.PeerCommunication.Steps.{ahead, passes, Advance, advance}

-- A thread of this phase has a step.
abbrev Goes : Bytes → Bytes → Shared → Phase → Type 0
Goes user command s p =
    (p' : Phase) × (s' : Shared) × (m : Move user command s p s' p') × (passes m ≡ false)

silence : react precommit_sent no_data ≡ some no_answer
unfolding react
silence = refl

silence_commit : react commit_sent no_data ≡ some no_answer
unfolding react
silence_commit = refl

-- A phase in which a thread waits for no other.
abbrev is_active : Phase → Bool
is_active ready_waits = false
is_active commit_waits = false
is_active (ended _) = false
is_active _ = true

-- The master's own operation returns.
abbrev pub Returns : Bytes → Bytes → Store → Type 0
Returns user command s =
    (response : Bytes) × (t : Store) × (local_operation user command s ≡ done response t)

module _ {user command : Bytes} {peers : ℕ} {before : Store} {s : System}
    (r : Reach user command peers before s) (returns : Returns user command before) where
  operates :
      is_empty s.shared.statistics.completion ≡ true → Goes user command s.shared commit_agreed
  operates e =
      let (response, t, run) = returns in
      (
        operated,
        _,
        operate e (ap (local_operation user command) ((Reach-BoardInv r).untouched e) ∙ run),
        refl,
      )

  active : (p : Phase) → is_active p ≡ true → Goes user command s.shared p
  active connecting h = (awaits_ready, _, connect, refl)
  active awaits_ready h = (ended unready, _, lose_ready no_data silence, refl)
  active ready_counted h = elim (Bool-cases s.shared.statistics.should_abort) [
    | inl e ↦ (ended aborted, _, send_abort e, refl)
    | inr e ↦ (awaits_commit, _, send_commit e, refl)
  ]
  active awaits_commit h = (ended unanswered, _, lose_commit no_data silence_commit, refl)
  active commit_counted h = elim (Bool-cases s.shared.statistics.did_fail) [
    | inl e ↦ (operated, _, skip_operation e, refl)
    | inr e ↦ (commit_agreed, _, agree e, refl)
  ]
  active commit_agreed h = elim (Bool-cases (is_empty s.shared.statistics.completion)) [
    | inl e ↦ operates e
    | inr e ↦ (operated, _, find_operated e, refl)
  ]
  active operated h = (_, _, send_decision, refl)
  active ready_waits h = cc
  active commit_waits h = cc
  active (ended e) h = cc

  moved :
      (i : ℕ) (p : Phase)
      → get_elem? s.threads i ≡ some p
      → Goes user command s.shared p
      → (t : System) × Advance user command s t
  moved i p at (p', s', m, h) = (_, advance i at m h)

  module _ (unbroken : (i : ℕ) → get_elem? s.threads i ≢ some (ended broken))
      (unbroken_commit : (i : ℕ) → get_elem? s.threads i ≢ some (ended broken_commit)) where
    unblocked :
        (j : ℕ) (q : Phase)
        → get_elem? s.threads j ≡ some q
        → Blocks q
        → (t : System) × Advance user command s t
    unblocked j q at still_connecting = moved j connecting at (active connecting refl)
    unblocked j q at still_awaiting = moved j awaits_ready at (active awaits_ready refl)
    unblocked j q at has_broken = absurd (unbroken j at)

    ready_waits_on :
        (i : ℕ) → get_elem? s.threads i ≡ some ready_waits → (t : System) × Advance user command s t
    ready_waits_on i at = elim (ready_waiter i r at) [
      | inl go ↦ moved i ready_waits at (ready_counted, _, wake_ready go, refl)
      | inr (j, q, k, b) ↦ unblocked j q k b
    ]

    -- Who has not answered COMMIT_SUCCESS, while a thread waits for that.
    lagging :
        (i j : ℕ) (q : Phase)
        → get_elem? s.threads i ≡ some commit_waits
        → waits_for_commit s.shared.statistics ≡ true
        → get_elem? s.threads j ≡ some q
        → 0 < not_done q
        → (t : System) × Advance user command s t
    lagging i j connecting at w k lt = moved j connecting k (active connecting refl)
    lagging i j awaits_ready at w k lt = moved j awaits_ready k (active awaits_ready refl)
    lagging i j ready_waits at w k lt = ready_waits_on j k
    lagging i j ready_counted at w k lt = moved j ready_counted k (active ready_counted refl)
    lagging i j awaits_commit at w k lt = moved j awaits_commit k (active awaits_commit refl)
    lagging i j (ended aborted) at w k lt = absurd (commit_excludes_abort i j r at refl k)
    lagging i j (ended broken_commit) at w k lt = absurd (unbroken_commit j k)
    lagging i j (ended refused) at w k lt =
        let set' =
          (Reach-OutcomeInv r).fails_set
            (omega (arith, le-total failing s.threads j (ended refused) k)) in
        absurd (unfold waits_for_commit in ground arith)
    lagging i j (ended unanswered) at w k lt =
        let set' =
          (Reach-OutcomeInv r).fails_set
            (omega (arith, le-total failing s.threads j (ended unanswered) k)) in
        absurd (unfold waits_for_commit in ground arith)
    lagging i j (ended unreached) at w k lt =
        absurd (omega (arith, commit_after_all_ready i j r at refl k))
    lagging i j (ended unready) at w k lt =
        absurd (omega (arith, commit_after_all_ready i j r at refl k))
    lagging i j (ended broken) at w k lt =
        absurd (omega (arith, commit_after_all_ready i j r at refl k))
    lagging i j _ at w k lt = absurd (omega arith)

    commit_waits_on :
        (i : ℕ)
        → get_elem? s.threads i ≡ some commit_waits
        → (t : System) × Advance user command s t
    commit_waits_on i at = elim (Bool-cases (waits_for_commit s.shared.statistics)) [
      | inr go ↦ moved i commit_waits at (commit_counted, _, wake_commit go, refl)
      | inl w ↦
          let pending = (Reach-OutcomeInv r).pending in
          let lt : 0 < total not_done s.threads = unfold waits_for_commit in ground arith in
          let (j, q, k, counted) = find not_done s.threads lt in lagging i j q at w k counted
    ]

    on_the_way :
        (i : ℕ) (p : Phase)
        → get_elem? s.threads i ≡ some p
        → 0 < ahead p
        → (t : System) × Advance user command s t
    on_the_way i ready_waits at lt = ready_waits_on i at
    on_the_way i commit_waits at lt = commit_waits_on i at
    on_the_way i (ended e) at lt = absurd (omega arith)
    on_the_way i connecting at lt = moved i connecting at (active connecting refl)
    on_the_way i awaits_ready at lt = moved i awaits_ready at (active awaits_ready refl)
    on_the_way i ready_counted at lt = moved i ready_counted at (active ready_counted refl)
    on_the_way i awaits_commit at lt = moved i awaits_commit at (active awaits_commit refl)
    on_the_way i commit_counted at lt = moved i commit_counted at (active commit_counted refl)
    on_the_way i commit_agreed at lt = moved i commit_agreed at (active commit_agreed refl)
    on_the_way i operated at lt = moved i operated at (active operated refl)

    at_end : (p : Phase) → ahead p ≤ 0 → (e : Ending) × (p ≡ ended e)
    at_end (ended e) h = (e, refl)
    at_end connecting h = absurd (omega arith)
    at_end _ h = absurd (omega arith)

    -- A transaction whose threads have met no failed receive, and whose own operation returns on the
    -- master's board, is finished or has a next step that is not an answer passed over.
    pub progress :
        ((i : ℕ) (p : Phase) → get_elem? s.threads i ≡ some p → (e : Ending) × (p ≡ ended e))
        ⊎ ((t : System) × Advance user command s t)
    progress = elim (ℕ_discrete (total ahead s.threads) 0) [
      | yes e ↦ inl (λ i p at. at_end p (omega (arith, e, le-total ahead s.threads i p at)))
      | no ne ↦
          let (i, p, at, lt) = find ahead s.threads (omega arith) in inr (on_the_way i p at lt)
    ]
