-- ===== src/Pool/Shutdown.antt =====
-- killThreads ends without the clients when the threads that it joins may be cancelled.
use bulletin_board.Base.{
  ℕ, zero, suc, ◌+◌, ◌≤◌, ◌<◌, ◌≡◌, ◌≢◌, ◌⊎◌, inl, inr, refl, sym, ap, ◌∙◌, Bool, true, false, some,
  List, [], ◌∷◌, arith, ltb, length, get_elem?, set, length-set, get_elem?-set, Bool-cases,
}
use bulletin_board.Pool.{
  Phase, accepting, receiving, handling, abandoning, closing, returned, cancelled, Worker, is_over,
}
use bulletin_board.Pool.Acts.{Shared, Act, cancel_accept, cancel, cancellable, closed}
use bulletin_board.Pool.Threads.{
  World, idle, joins, finished, kill_from, request, request_at, move_to, act, kill, joined, Reach,
}
use bulletin_board.Pool.Weights.{length-request_at}
use bulletin_board.Pool.Sockets.{sockets_closed}
use bulletin_board.Pool.Stranded.{Run-Reach}
use bulletin_board.Pool.Quiet.{Quiet, Quiet-refl, Quiet-step, Quiet-trans}

-- Whether a thread has ended or ends once it is asked to.
unfoldable pub is_ready : Phase → Bool
is_ready accepting = true
is_ready (receiving e b) = b
is_ready (handling e) = false
is_ready (abandoning e b) = b
is_ready (closing e b) = b
is_ready returned = true
is_ready cancelled = true

get_elem?-set_self :
    (ts : List Worker) (i : ℕ) (p q : Worker)
    → get_elem? ts i ≡ some p
    → get_elem? (set ts i q) i ≡ some q
get_elem?-set_self [] i p q h = cc
get_elem?-set_self (t ∷ ts) zero p q h = refl
get_elem?-set_self (t ∷ ts) (suc i) p q h = get_elem?-set_self ts i p q h

-- The thread `i` has ended in `t`, and all others stand as in `w`.
record Ended (i : ℕ) (w t : World) : Type 0 where
  quiet : Quiet w t
  killer : t.killer ≡ w.killer
  length : length t.threads ≡ length w.threads
  others :
      (j : ℕ) (q : Worker) → j ≢ i → get_elem? t.threads j ≡ some q → get_elem? w.threads j ≡ some q
  ended : (q : Worker) × (get_elem? t.threads i ≡ some q) × (is_over q.phase ≡ true)

by_cancel :
    (i : ℕ) (w : World) (p : Worker) (s : Shared)
    → get_elem? w.threads i ≡ some p
    → Act p.server w.shared p.requested p.phase p.hold s cancelled p.hold false
    → (t : World) × Ended i w t
by_cancel i w p s at m =
    let q : Worker = record p { phase = cancelled; hold = p.hold } in
    (
      move_to w i p s cancelled p.hold,
      record {
        quiet = Quiet-step (Quiet-refl w) (act i p at m) refl;
        killer = refl;
        length = length-set w.threads i q;
        others = λ j x ne h. elim (get_elem?-set w.threads i j q x h) [
          | inl (e, f) ↦ absurd (ne (sym e))
          | inr (e, f) ↦ f
        ];
        ended = (q, get_elem?-set_self w.threads i p q at, refl);
      },
    )

already :
    (i : ℕ) (w : World) (p : Worker)
    → get_elem? w.threads i ≡ some p
    → is_over p.phase ≡ true
    → (t : World) × Ended i w t
already i w p at o = (
  w,
  record {
    quiet = Quiet-refl w;
    killer = refl;
    length = refl;
    others = λ j x ne h. h;
    ended = (p, at, o);
  },
)

-- Where a thread that is ready stands.
ready-cases :
    (p : Phase)
    → is_ready p ≡ true
    → (is_over p ≡ true) ⊎ ((p ≡ accepting) ⊎ ((e : ℕ) × (cancellable p ≡ some e)))
unfolding is_ready cancellable
ready-cases accepting h = inr (inl refl)
ready-cases (receiving e true) h = inr (inr (e, refl))
ready-cases (receiving e false) h = cc
ready-cases (handling e) h = cc
ready-cases (abandoning e true) h = inr (inr (e, refl))
ready-cases (abandoning e false) h = cc
ready-cases (closing e true) h = inr (inr (e, refl))
ready-cases (closing e false) h = cc
ready-cases returned h = inl refl
ready-cases cancelled h = inl refl

end_thread :
    (i : ℕ) (w : World) (p : Worker)
    → get_elem? w.threads i ≡ some p
    → p.requested ≡ true
    → is_ready p.phase ≡ true
    → (t : World) × Ended i w t
end_thread i w p at r h = elim (ready-cases p.phase h) [
  | inl o ↦ already i w p at o
  | inr (inl a) ↦ by_cancel i w p w.shared at (rw a (cancel_accept r))
  | inr (inr (e, c)) ↦ by_cancel i w p (closed e w.shared) at (cancel r c)
]

-- Each thread from `k` on has ended or ends once it is asked to.
abbrev pub Ready : ℕ → List Worker → Type 0
Ready k ts = (i : ℕ) (p : Worker) → k ≤ i → get_elem? ts i ≡ some p → is_ready p.phase ≡ true

found : (ts : List Worker) (k : ℕ) → k < length ts → (p : Worker) × (get_elem? ts k ≡ some p)
found [] k lt = absurd (omega arith)
found (t ∷ ts) zero lt = (t, refl)
found (t ∷ ts) (suc k) lt = found ts k (omega arith)

request_at_self :
    (ts : List Worker) (k : ℕ) (p : Worker)
    → get_elem? ts k ≡ some p
    → get_elem? (request_at k ts) k ≡ some (request p)
request_at_self [] k p h = cc
request_at_self (t ∷ ts) zero p h = cc
request_at_self (t ∷ ts) (suc k) p h = request_at_self ts k p h

request_at_other :
    (ts : List Worker) (k i : ℕ) → i ≢ k → get_elem? (request_at k ts) i ≡ get_elem? ts i
request_at_other [] k i ne = refl
request_at_other (t ∷ ts) zero zero ne = absurd (ne refl)
request_at_other (t ∷ ts) zero (suc i) ne = refl
request_at_other (t ∷ ts) (suc k) zero ne = refl
request_at_other (t ∷ ts) (suc k) (suc i) ne = request_at_other ts k i (λ e. ne (ap suc e))

abbrev requested_world : ℕ → World → World
requested_world k w = record w { threads = request_at k w.threads; killer = joins k }

kill_from-lt : (k : ℕ) (w : World) → k < length w.threads → kill_from k w ≡ requested_world k w
unfolding kill_from
kill_from-lt k w lt = ground arith

-- One round of killThreads' loop.
round :
    (k : ℕ) (w : World)
    → k < length w.threads
    → Ready k w.threads
    → (t : World) × Quiet (kill_from k w) (kill_from (suc k) t)
      × (length t.threads ≡ length w.threads)
      × Ready (suc k) t.threads
round k w lt ready =
    let (p, at) = found w.threads k lt in
    let (t, e) =
      end_thread k (requested_world k w) (request p) (request_at_self w.threads k p at) refl
        (ready k p (omega arith) at) in
    let (q, there, over) = e.ended in
    (
      t,
      rw (kill_from-lt k w lt) (Quiet-step e.quiet (joined k q e.killer there over) refl),
      e.length ∙ length-request_at k w.threads,
      λ i x le h. ready i x (omega arith) (
          sym (request_at_other w.threads k i (λ y. omega arith))
          ∙ e.others i x (λ y. omega arith) h),
    )

kill_from-finished : (k : ℕ) (w : World) → length w.threads ≤ k → (kill_from k w).killer ≡ finished
unfolding kill_from
kill_from-finished k w le = ground arith

rounds :
    (n k : ℕ) (w : World)
    → length w.threads ≤ k + n
    → Ready k w.threads
    → (t : World) × Quiet (kill_from k w) t × (t.killer ≡ finished)
rounds zero k w le ready =
    (kill_from k w, Quiet-refl (kill_from k w), kill_from-finished k w (omega arith))
rounds (suc n) k w le ready = elim (Bool-cases (ltb k (length w.threads))) [
  | inl b ↦
      let (t, q, e, r) = round k w (ground arith) ready in
      let (u, q', f) = rounds n (suc k) t (omega arith) r in (u, Quiet-trans q q', f)
  | inr b ↦ (kill_from k w, Quiet-refl (kill_from k w), kill_from-finished k w (ground arith))
]

-- When a signal comes in a reachable world whose threads have all ended, wait in accept(), or stand
-- with their cancellation enabled, killThreads can join them all without a client's doing, and then
-- no client's socket is open.
pub kill_threads_completes :
    {w : World}
    → Reach w
    → w.killer ≡ idle
    → Ready w.first w.threads
    → (t : World) × Quiet w t × (t.killer ≡ finished) × (t.shared.sockets ≡ [])
kill_threads_completes {w} r e ready =
    let (t, q, f) = rounds (length w.threads) w.first w (omega arith) ready in
    let all = Quiet-trans (Quiet-step (Quiet-refl w) (kill e) refl) q in
    (t, all, f, sockets_closed (Run-Reach r all.1) f)
