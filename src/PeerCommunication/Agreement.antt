-- ===== src/PeerCommunication/Agreement.antt =====
-- What the peers are told, and what becomes of the master's board.
use bulletin_board.Base.{
  ℕ, ◌≡◌, ◌⊎◌, inl, inr, refl, sym, ap, ◌∙◌, true, false, some, arith, Bool-cases, get_elem?,
}
use bulletin_board.Base.Counting.{total, total-le, le-total}
use bulletin_board.Text.{Bytes}
use bulletin_board.Store.{Store, done}
use bulletin_board.SyncServer.{operation_failed}
use bulletin_board.Text.{is_empty}
use bulletin_board.PeerCommunication.{
  notify_threads_to_abort, notify_threads_to_undo_commit, acknowledge_ready, acknowledge_commit,
  confirmed, undone, Phase, ended, local_operation,
}
use bulletin_board.PeerCommunication.Threads.{
  Shared, Move, operate, System, step, Reach, start, later,
}
use bulletin_board.PeerCommunication.Responses.{local_operation-Answer}
use bulletin_board.PeerCommunication.Outcome.{
  not_done, failing, failing-le-not_done, at_confirmed, at_undone, Reach-OutcomeInv,
}

-- The board is as at the start, or the operation has been carried out on it once.
pub record BoardInv (user command : Bytes) (before : Store) (s : Shared) : Type 0 where
  pub untouched : is_empty s.statistics.completion ≡ true → s.store ≡ before
  pub carried_out :
      is_empty s.statistics.completion ≡ false
      → local_operation user command before ≡ done s.statistics.completion s.store

Move-BoardInv :
    {user command : Bytes} {s s' : Shared} {p p' : Phase} (before : Store)
    → Move user command s p s' p'
    → BoardInv user command before s
    → BoardInv user command before s'
unfolding acknowledge_ready acknowledge_commit notify_threads_to_abort notify_threads_to_undo_commit
Move-BoardInv {user} {command} {s} before (operate {response} {store} e h) inv =
    let same = inv.untouched e in
    let answer = local_operation-Answer user command s.store response store h in
    record {
      untouched = λ q. cc;
      carried_out = λ q. ap (local_operation user command) (sym same) ∙ h;
    }
Move-BoardInv before _ inv = ground arith

pub Reach-BoardInv :
    {user command : Bytes} {peers : ℕ} {before : Store} {s : System}
    → Reach user command peers before s
    → BoardInv user command before s.shared
Reach-BoardInv start = record { untouched = λ e. refl; carried_out = λ e. cc }
Reach-BoardInv {before} (later r (step i at m)) = Move-BoardInv before m (Reach-BoardInv r)

pub none_pending :
    {user command : Bytes} {peers : ℕ} {before : Store} {s : System}
    → Reach user command peers before s
    → is_empty s.shared.statistics.completion ≡ false
    → (total not_done s.threads ≡ 0) × (s.shared.statistics.did_fail ≡ false)
none_pending {s} r e =
    let inv = Reach-OutcomeInv r in
    let pending = inv.pending in
    let fails = inv.fails in
    let completed = inv.completed e in
    let le = total-le failing not_done failing-le-not_done s.threads in (omega arith, ground arith)

-- The master carries the command out at most once, on the board as it was, and only after each
-- peer has answered COMMIT_SUCCESS; until then its board is as it was.
pub master_operation :
    {user command : Bytes} {peers : ℕ} {before : Store} {s : System}
    → Reach user command peers before s
    → (s.shared.store ≡ before)
      ⊎ ((local_operation user command before ≡ done s.shared.statistics.completion s.shared.store)
          × ((j : ℕ) (q : Phase) → get_elem? s.threads j ≡ some q → not_done q ≡ 0))
master_operation {s} r = elim (Bool-cases (is_empty s.shared.statistics.completion)) [
  | inl e ↦ inl ((Reach-BoardInv r).untouched e)
  | inr e ↦
      let quiet = (none_pending r e).0 in
      inr (
        (Reach-BoardInv r).carried_out e,
        λ j q at. omega (arith, le-total not_done s.threads j q at),
      )
]

-- A peer is told SUCCESS_NOOP only if every peer has answered COMMIT_SUCCESS and the master has
-- carried the command out without an error.
pub confirmed_means :
    {user command : Bytes} {peers : ℕ} {before : Store} {s : System} (i : ℕ)
    → Reach user command peers before s
    → get_elem? s.threads i ≡ some (ended confirmed)
    → (local_operation user command before ≡ done s.shared.statistics.completion s.shared.store)
      × (operation_failed s.shared.statistics.completion ≡ false)
      × ((j : ℕ) (q : Phase) → get_elem? s.threads j ≡ some q → not_done q ≡ 0)
confirmed_means {s} i r h =
    let all' =
      (Reach-OutcomeInv r).confirms_all
        (omega (arith, le-total at_confirmed s.threads i (ended confirmed) h)) in
    let quiet = (none_pending r all'.0).0 in
    (
      (Reach-BoardInv r).carried_out all'.0,
      all'.1,
      λ j q at. omega (arith, le-total not_done s.threads j q at),
    )

-- A peer is told UNSUCCESS_UNDO only if the master's board is as it was.
pub undone_means :
    {user command : Bytes} {peers : ℕ} {before : Store} {s : System} (i : ℕ)
    → Reach user command peers before s
    → get_elem? s.threads i ≡ some (ended undone)
    → s.shared.store ≡ before
undone_means {user} {command} {before = before} {s} i r h =
    elim (Bool-cases (is_empty s.shared.statistics.completion)) [
      | inl e ↦ (Reach-BoardInv r).untouched e
      | inr e ↦
          let done' = (Reach-BoardInv r).carried_out e in
          let quiet = none_pending r e in
          let why =
            (Reach-OutcomeInv r).undoes
              (omega (arith, le-total at_undone s.threads i (ended undone) h)) in
          let answer =
            local_operation-Answer user command before s.shared.statistics.completion s.shared.store
              done' in
          elim why [ inl f ↦ absurd (ground arith) | inr f ↦ answer.1 f.1 ]
    ]

-- No two peers are told SUCCESS_NOOP and UNSUCCESS_UNDO.
pub decisions_agree :
    {user command : Bytes} {peers : ℕ} {before : Store} {s : System} (i j : ℕ)
    → Reach user command peers before s
    → get_elem? s.threads i ≡ some (ended confirmed)
    → ¬ (get_elem? s.threads j ≡ some (ended undone))
decisions_agree {s} i j r h k =
    let inv = Reach-OutcomeInv r in
    let all' =
      inv.confirms_all (omega (arith, le-total at_confirmed s.threads i (ended confirmed) h)) in
    let quiet = (none_pending r all'.0).1 in
    let why = inv.undoes (omega (arith, le-total at_undone s.threads j (ended undone) k)) in
    ground arith
