-- ===== src/Pool/Joined.antt =====
-- killThreads cancels and joins the threads one after the other: all in front of the one that it
-- joins have ended, and a thread that has ended does nothing more.
use bulletin_board.Base.{
  ℕ, suc, ◌<◌, ◌≡◌, inl, inr, refl, sym, ap, ◌∙◌, Bool, true, false, some, List, map, arith, ltb,
  length, get_elem?, set, get_elem?-set, length-set, Bool-cases,
}
use mathlib.Core.Path.{subst}
use native.Mathlib.Decide.{ℕ_discrete}
use bulletin_board.Pool.{
  Server, Phase, accepting, receiving, handling, abandoning, closing, returned, cancelled, Hold,
  Worker, new_thread, is_over,
}
use bulletin_board.Pool.Acts.{Shared, Act, cancel, cancellable}
use bulletin_board.Pool.Threads.{
  World, Killer, idle, joins, finished, kill_from, restart, empty_world, request_at, Event, Step,
  act, kill, joined, start_again, Reach, started, later,
}
use bulletin_board.Pool.Weights.{start_servers-Grown, get_elem?-append, request_at-phase, lt-length}

-- How many threads have been joined.
abbrev pub joined_by : Killer → ℕ → ℕ → ℕ
joined_by idle first n = first
joined_by (joins k) first n = k
joined_by finished first n = n

abbrev pub joined_below : World → ℕ
joined_below w = joined_by w.killer w.first (length w.threads)

abbrev pub OverBelow : ℕ → List Worker → Type 0
OverBelow n ts = (i : ℕ) (p : Worker) → i < n → get_elem? ts i ≡ some p → is_over p.phase ≡ true

pub Act-alive :
    {v : Server} {s s' : Shared} {r : Bool} {p p' : Phase} {h h' : Hold} {heard : Bool}
    → Act v s r p h s' p' h' heard
    → is_over p ≡ false
unfolding cancellable
Act-alive {p = accepting} m = refl
Act-alive {p = receiving e b} m = refl
Act-alive {p = handling e} m = refl
Act-alive {p = abandoning e b} m = refl
Act-alive {p = closing e b} m = refl
Act-alive {p = returned} (cancel g at) = cc
Act-alive {p = cancelled} (cancel g at) = cc

-- The killers' side of a world: how many are joined, and that these have ended.
abbrev pub Joined : World → Type 0
Joined w = OverBelow (joined_below w) w.threads

OverBelow-set :
    (n i : ℕ) (p p' : Worker) (ts : List Worker)
    → get_elem? ts i ≡ some p
    → is_over p.phase ≡ false
    → OverBelow n ts
    → OverBelow n (set ts i p')
OverBelow-set n i p p' ts at alive o j q lt h = elim (get_elem?-set ts i j p' q h) [
  | inl (e, f) ↦ cc (o i p (omega arith) at)
  | inr (ne, h') ↦ o j q lt h'
]

OverBelow-suc :
    (k : ℕ) (p : Worker) (ts : List Worker)
    → get_elem? ts k ≡ some p
    → is_over p.phase ≡ true
    → OverBelow k ts
    → OverBelow (suc k) ts
OverBelow-suc k p ts at over o i q lt h = elim (ℕ_discrete i k) [
  | yes e ↦ cc
  | no ne ↦ o i q (omega arith) h
]

OverBelow-request_at : (n k : ℕ) (ts : List Worker) → OverBelow n ts → OverBelow n (request_at k ts)
OverBelow-request_at n k ts o i p lt h =
    let (q, at, e, f) = request_at-phase k ts i p h in ap is_over e ∙ o i q lt at

kill_from-Joined : (k : ℕ) (w : World) → OverBelow k w.threads → Joined (kill_from k w)
unfolding kill_from
kill_from-Joined k w o = elim (Bool-cases (ltb k (length w.threads))) [
  | inl e ↦ rw e (OverBelow-request_at k k w.threads o)
  | inr e ↦ rw e (λ i p lt h. o i p (ground arith) h)
]

restart-Joined :
    (pthread_create : Server → ℕ → Bool) (tmax : ℕ) (w : World)
    → OverBelow (length w.threads) w.threads
    → Joined (restart pthread_create tmax w)
unfolding restart
restart-Joined creates tmax w o i p lt h =
    let (vs, e) = start_servers-Grown creates tmax w.threads in
    o i p lt (
      sym (get_elem?-append w.threads (map new_thread vs) i lt)
      ∙ sym (ap (λ ts. get_elem? ts i) e)
      ∙ h)

killer-Joined :
    {k : Killer} (w : World)
    → w.killer ≡ k
    → Joined w
    → OverBelow (joined_by k w.first (length w.threads)) w.threads
killer-Joined w e o = subst (λ k. OverBelow (joined_by k w.first (length w.threads)) w.threads) e o

pub Step-Joined : {w t : World} {e : Event} → Step w e t → Joined w → Joined t
Step-Joined {w} (act i p {s} {ph} {h} at m) o =
    let p' : Worker = record p { phase = ph; hold = h } in
    subst (λ n. OverBelow (joined_by w.killer w.first n) (set w.threads i p'))
      (sym (length-set w.threads i p'))
      (OverBelow-set (joined_below w) i p p' w.threads at (Act-alive m) o)
Step-Joined {w} (kill e) o = kill_from-Joined w.first w (killer-Joined w e o)
Step-Joined {w} (joined k p e at over) o =
    kill_from-Joined (suc k) w (OverBelow-suc k p w.threads at over (killer-Joined w e o))
Step-Joined {w} (start_again creates tmax e) o = restart-Joined creates tmax w (killer-Joined w e o)

pub Reach-Joined : {w : World} → Reach w → Joined w
Reach-Joined (started creates tmax) =
    restart-Joined creates tmax empty_world (λ i p lt h. absurd (omega arith))
Reach-Joined (later r st) = Step-Joined st (Reach-Joined r)

-- All threads of a world whose killThreads is through have ended.
pub finished-all :
    {w : World}
    → Reach w
    → w.killer ≡ finished
    → (i : ℕ) (p : Worker) → get_elem? w.threads i ≡ some p
    → is_over p.phase ≡ true
finished-all {w} r e i p at = killer-Joined w e (Reach-Joined r) i p (lt-length w.threads i p at) at
