-- ===== src/PeerCommunication/Waiters.antt =====
-- Why a thread of a transaction waits for the others' READY.
use bulletin_board.Base.{ℕ, ◌<◌, ◌≡◌, ◌⊎◌, inl, inr, false, some, arith, Bool-cases, get_elem?}
use bulletin_board.Base.Counting.{total, le-total, find}
use bulletin_board.Text.{Bytes}
use bulletin_board.Store.{Store}
use bulletin_board.PeerCommunication.{
  waits_for_ready, unreached, unready, broken, Phase, connecting, awaits_ready, ready_waits, ended,
}
use bulletin_board.PeerCommunication.Threads.{System, Reach}
use bulletin_board.PeerCommunication.Votes.{not_ready, aborting, Reach-VoteInv}

-- A thread that a waiting thread may still wait for.
pub data Blocks : Phase → Type 0 where
  still_connecting : Blocks connecting
  still_awaiting : Blocks awaits_ready
  has_broken : Blocks (ended broken)

blocker : (p : Phase) → 0 < not_ready p → aborting p ≡ 0 → Blocks p
blocker connecting lt e = still_connecting
blocker awaits_ready lt e = still_awaiting
blocker (ended broken) lt e = has_broken
blocker (ended unreached) lt e = absurd (omega arith)
blocker (ended unready) lt e = absurd (omega arith)
blocker _ lt e = absurd (omega arith)

-- A thread that waits for the others' READY can go on, or there is a thread that has yet to
-- connect, has yet to hear from its peer, or was ended by a failed receive.
pub ready_waiter :
    {user command : Bytes} {peers : ℕ} {store : Store} {s : System} (i : ℕ)
    → Reach user command peers store s
    → get_elem? s.threads i ≡ some ready_waits
    → (waits_for_ready s.shared.statistics ≡ false)
      ⊎ ((j : ℕ) × (q : Phase) × (get_elem? s.threads j ≡ some q) × Blocks q)
ready_waiter {s} i r h = elim (Bool-cases (waits_for_ready s.shared.statistics)) [
  | inr go ↦ inl go
  | inl waits ↦
      let inv = Reach-VoteInv r in
      let pending = inv.pending in
      let aborts_set = inv.aborts_set in
      let lt : 0 < total not_ready s.threads = unfold waits_for_ready in ground arith in
      let no_abort : s.shared.statistics.should_abort ≡ false =
        unfold waits_for_ready in ground arith in
      let (j, q, at, counted) = find not_ready s.threads lt in
      let quiet : aborting q ≡ 0 = ground (arith, le-total aborting s.threads j q at) in
      inr (j, q, at, blocker q counted quiet)
]
