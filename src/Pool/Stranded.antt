-- ===== src/Pool/Stranded.antt =====
-- What a cancellation leaves behind, and for what killThreads waits.
use bulletin_board.Base.{
  ℕ, ◌<◌, ◌≡◌, inl, inr, refl, ap, ◌∙◌, Bool, true, false, List, arith, ◌==◌, ==_self,
  if◌then◌else◌,
}
use bulletin_board.Base.Counting.{total, le-total}
use bulletin_board.Lock.{writer_must_wait, reader_must_wait}
use bulletin_board.Pool.{Server, Phase, receiving, Hold, is_over}
use bulletin_board.Pool.Acts.{Shared, Act, receive, hang_up, cancel, cancellable}
use bulletin_board.Pool.Threads.{
  World, joins, Event, hears, event, Step, act, kill, joined, start_again, Run, here, then_step,
  Reach, later,
}
use bulletin_board.Pool.Invariant.{writes, writes_at}
use bulletin_board.Pool.Joined.{Act-alive}
use bulletin_board.Pool.Locks.{Reach-LockInv}
use bulletin_board.Pool.Stays.{IsAt, Step-stays}

pub Run-Reach : {w t : World} {es : List Event} → Reach w → Run w es t → Reach t
Run-Reach r here = r
Run-Reach r (then_step run st) = later (Run-Reach r run) st

over-stays :
    {w t : World} {es : List Event} (i : ℕ) (p : Phase) (h : Hold)
    → is_over p ≡ true
    → IsAt i p h w
    → Run w es t
    → IsAt i p h t
over-stays i p h o a here = a
over-stays i p h o a (then_step run st) = elim (Step-stays i p h st (over-stays i p h o a run)) [
  | inl (v, r, s, p', h', heard, m, e) ↦ cc (Act-alive m)
  | inr b ↦ b
]

-- Once a thread has ended with the write lock, all that ask for the lock wait, whatever happens
-- later and also behind a SIGHUP: nobody releases it.
pub lock_lost :
    {w t : World} {es : List Event} (i : ℕ) (p : Phase) (h : Hold)
    → Reach w
    → IsAt i p h w
    → is_over p ≡ true
    → 0 < writes h
    → Run w es t
    → (writer_must_wait t.shared.access ≡ true) × (reader_must_wait t.shared.access ≡ true)
unfolding writer_must_wait reader_must_wait
lock_lost {t} i p h r a o held run =
    let (q, at, e, f) = over-stays i p h o a run in
    let inv = Reach-LockInv (Run-Reach r run) in
    let counted : 0 < total writes_at t.threads =
      omega (arith, le-total writes_at t.threads i q at, held, ap writes f) in
    (ground (arith, inv.writer, counted), ground (arith, inv.writer, counted))

-- Whether an event is one of the thread `i` that waits for its client.
unfoldable pub hearing : ℕ → Event → ℕ
hearing i (hears j) = if i == j then 1 else 0
hearing i _ = 0

hearing_self : (i : ℕ) → hearing i (hears i) ≡ 1
unfolding hearing
hearing_self i = rw (==_self i) refl

disabled-hears :
    {v : Server} {s s' : Shared} {r : Bool} {e : ℕ} {p' : Phase} {h h' : Hold} {heard : Bool}
    → Act v s r (receiving e false) h s' p' h' heard
    → heard ≡ true
unfolding cancellable
disabled-hears receive = refl
disabled-hears hang_up = refl
disabled-hears (cancel q at) = cc

-- While killThreads joins a thread, only the end of that thread brings it further.
joins-stays :
    {w t : World} {ev : Event} (i : ℕ) (p : Phase) (h : Hold)
    → is_over p ≡ false
    → IsAt i p h w
    → w.killer ≡ joins i
    → Step w ev t
    → t.killer ≡ joins i
joins-stays i p h o a k (act j q at m) = k
joins-stays i p h o a k (kill e) = cc
joins-stays i p h o (q, at, e, f) k (joined j q' e' at' o') = cc
joins-stays i p h o a k (start_again creates tmax e) = cc

-- killThreads joins a thread whose cancellation is disabled and that receives, as behind a REPLACE
-- that was refused: it stays there until something comes on that thread's socket, or its end.
pub join_waits :
    {w t : World} {es : List Event} (i e : ℕ) (h : Hold)
    → w.killer ≡ joins i
    → IsAt i (receiving e false) h w
    → Run w es t
    → total (hearing i) es ≡ 0
    → (t.killer ≡ joins i) × IsAt i (receiving e false) h t
unfolding total
join_waits i e h k a here none_heard = (k, a)
join_waits i e h k a (then_step run st) none_heard =
    let (k', a') = join_waits i e h k a run (omega arith) in
    elim (Step-stays i (receiving e false) h st a') [
      | inl (v, r, s, p', h', heard, m, ev) ↦ absurd (
          omega (
            arith,
            none_heard,
            hearing_self i,
            ap (hearing i) (ev ∙ ap (λ b. event b i) (disabled-hears m)),
          ))
      | inr b ↦ (joins-stays i (receiving e false) h refl a' k' st, b)
    ]
