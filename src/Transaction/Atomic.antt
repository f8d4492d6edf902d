-- ===== src/Transaction/Atomic.antt =====
-- A transaction as a whole: the boards of the master and of all peers.
use bulletin_board.Base.{
  ℕ, ◌≡◌, ◌≢◌, inl, inr, refl, ap, ◌∙◌, true, false, some, List, [], ◌∷◌, arith, Bool-cases,
  get_elem?,
}
use bulletin_board.Base.Counting.{le-total}
use mathlib.Core.Path.{subst}
use bulletin_board.Text.{Bytes}
use bulletin_board.LineReader.{Receipt}
use bulletin_board.Store.{Store, done}
use bulletin_board.SyncServer.{operation_failed}
use bulletin_board.SyncServer.Decision.{Verdict, keep, undone}
use bulletin_board.SyncServer.Flows.{IsArgument}
use bulletin_board.Text.{is_empty}
use bulletin_board.BoardServer.{completion_answer}
use bulletin_board.PeerCommunication.{
  confirmed, Ending, Phase, ended, local_operation, local_operation_on, unreached, unready, broken,
  aborted, refused, unanswered, broken_commit,
}
use bulletin_board.PeerCommunication.Threads.{System, Reach}
use bulletin_board.PeerCommunication
use bulletin_board.PeerCommunication.Responses.{local_operation-Answer}
use bulletin_board.PeerCommunication.Outcome.{not_done, at_confirmed, at_undone, Reach-OutcomeInv}
use bulletin_board.PeerCommunication.Agreement.{Reach-BoardInv, none_pending}
use bulletin_board.Transaction.{Hears, conversation, verdict_of}
use bulletin_board.Transaction.Change.{Change, EndsWith, decided}
use bulletin_board.Transaction.Slave.{Hears-outcome}

abbrev pub Finished : System → Type 0
Finished s = (i : ℕ) (p : Phase) → get_elem? s.threads i ≡ some p → (e : Ending) × (p ≡ ended e)

-- Every end but `confirmed` undoes.
other_ends : (e : Ending) → e ≢ confirmed → verdict_of e ≡ undone
other_ends confirmed h = absurd (h refl)
other_ends _ h = refl

-- Of the threads that have heard COMMIT_SUCCESS, those that have not undone have confirmed.
confirmed_end :
    (e : Ending) → not_done (ended e) ≡ 0 → e ≢ PeerCommunication.undone → verdict_of e ≡ keep
confirmed_end confirmed h k = refl
confirmed_end PeerCommunication.undone h k = absurd (k refl)
confirmed_end _ h k = absurd (omega arith)

-- What the client is told: the answer of the command, or a failure.
abbrev pub Answered : Verdict → Bytes → Bytes → Type 0
Answered keep success answer = answer ≡ success
Answered undone success answer = operation_failed answer ≡ true

completion_sent :
    (name response : Bytes) → is_empty response ≡ false → completion_answer name response ≡ response
unfolding completion_answer
completion_sent name response e = ground arith

no_completion :
    (name response : Bytes)
    → is_empty response ≡ true
    → operation_failed (completion_answer name []) ≡ true
    → operation_failed (completion_answer name response) ≡ true
no_completion name [] e h = h
no_completion name (c ∷ response) e h = cc

module _ {user : Bytes} (c : Change user) {peers : ℕ} {before : Store} {s : System}
    (ready : c.IsReady before) (r : Reach user c.command peers before s) where
  -- The verdict that holds for all: what the master's board shows, and what each thread has told.
  abbrev pub Unanimous : Verdict → Type 0
  Unanimous v =
      (s.shared.store ≡ decided v (c.changed before) before)
      × Answered v (c.answer before) (completion_answer c.name s.shared.statistics.completion)
      × ((i : ℕ) (e : Ending) → get_elem? s.threads i ≡ some (ended e) → verdict_of e ≡ v)

  confirms_all :
      (i : ℕ)
      → get_elem? s.threads i ≡ some (ended confirmed)
      → (is_empty s.shared.statistics.completion ≡ false)
        × (operation_failed s.shared.statistics.completion ≡ false)
  confirms_all i at =
      (Reach-OutcomeInv r).confirms_all
        (omega (arith, le-total at_confirmed s.threads i (ended confirmed) at))

  not_carried_out : is_empty s.shared.statistics.completion ≡ true → Unanimous undone
  not_carried_out e = (
    (Reach-BoardInv r).untouched e,
    no_completion c.name s.shared.statistics.completion e c.failure,
    λ i end at.
        other_ends end (λ q. let sent = (confirms_all i (at ∙ ap (λ x. some (ended x)) q)).0 in cc),
  )

  failed :
      is_empty s.shared.statistics.completion ≡ false
      → operation_failed s.shared.statistics.completion ≡ true
      → Unanimous undone
  failed e f = (
    (local_operation-Answer user c.command before _ _ ((Reach-BoardInv r).carried_out e)).1 f,
    ap operation_failed (completion_sent c.name s.shared.statistics.completion e) ∙ f,
    λ i end at.
        other_ends end (λ q. let sent = (confirms_all i (at ∙ ap (λ x. some (ended x)) q)).1 in cc),
  )

  no_undone :
      is_empty s.shared.statistics.completion ≡ false
      → operation_failed s.shared.statistics.completion ≡ false
      → (i : ℕ) → get_elem? s.threads i ≡ some (ended PeerCommunication.undone)
      → ⊥
  no_undone e f i at =
      let why =
        (Reach-OutcomeInv r).undoes
          (omega (arith, le-total at_undone s.threads i (ended PeerCommunication.undone) at)) in
      let quiet = (none_pending r e).1 in ground arith

  carried_out :
      is_empty s.shared.statistics.completion ≡ false
      → operation_failed s.shared.statistics.completion ≡ false
      → Unanimous keep
  carried_out e f = (
    done'.1,
    completion_sent c.name s.shared.statistics.completion e ∙ done'.0,
    λ i end at.
        confirmed_end end
          (omega (arith, (none_pending r e).0, le-total not_done s.threads i (ended end) at))
          (λ q. no_undone e f i (at ∙ ap (λ x. some (ended x)) q)),
  )
    where
      done' :
          (s.shared.statistics.completion ≡ c.answer before) × (s.shared.store ≡ c.changed before)
      done' =
          let run = (Reach-BoardInv r).carried_out e in
          elim (c.carried_out before ready) [
            | inl (response, refused', bad) ↦ absurd (ground arith)
            | inr wrote' ↦ ground arith
          ]

  pub unanimous : (v : Verdict) × Unanimous v
  unanimous = elim (Bool-cases (is_empty s.shared.statistics.completion)) [
    | inl e ↦ (undone, not_carried_out e)
    | inr e ↦ elim (Bool-cases (operation_failed s.shared.statistics.completion)) [
      | inl f ↦ (undone, failed e f)
      | inr f ↦ (keep, carried_out e f)
    ]
  ]

-- When all threads have ended there is one verdict for all.
pub transaction_atomic :
    {user : Bytes} (c : Change user) {peers : ℕ} {before : Store} {s : System}
    → IsArgument user
    → c.IsReady before
    → Reach user c.command peers before s
    → Finished s
    → (v : Verdict) × (s.shared.store ≡ decided v (c.changed before) before)
      × Answered v (c.answer before) (completion_answer c.name s.shared.statistics.completion)
      × ((i : ℕ) (p : Phase) (rs : List Receipt) (t : Store)
          → get_elem? s.threads i ≡ some p
          → c.IsHealthy t
          → Hears (conversation user c.command p) rs
          → EndsWith rs t (decided v (c.changed t) t))
transaction_atomic {user} c {peers} {before} {s} u ready r finished =
    let (v, (board, answer, told)) = unanimous c ready r in
    (v, board, answer, λ i p rs t at h k. slave i p rs t at h k (finished i p at) v told)
  where
    slave :
        (i : ℕ) (p : Phase) (rs : List Receipt) (t : Store)
        → get_elem? s.threads i ≡ some p
        → c.IsHealthy t
        → Hears (conversation user c.command p) rs
        → (e : Ending) × (p ≡ ended e)
        → (v : Verdict)
        → ((i : ℕ) (e : Ending) → get_elem? s.threads i ≡ some (ended e) → verdict_of e ≡ v)
        → EndsWith rs t (decided v (c.changed t) t)
    slave i p rs t at h k (e, q) v told =
        let (m, run) =
          Hears-outcome user c t u h e
            (subst (λ x. Hears (conversation user c.command x) rs) q k) in
        (m, run ∙ ap (λ x. done m (decided x (c.changed t) t)) (told i e (at ∙ ap some q)))
