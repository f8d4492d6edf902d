-- ===== src/Pool/Stays.antt =====
-- What becomes of one thread in a step: it takes the step itself, or it stays where it is.
use bulletin_board.Base.{
  ℕ, zero, suc, ◌≡◌, ◌≢◌, ◌⊎◌, inl, inr, refl, ap, ◌∙◌, Bool, some, List, [], ◌∷◌, map, ltb, length,
  get_elem?, set, Bool-cases,
}
use mathlib.Core.Path.{subst}
use native.Mathlib.Decide.{ℕ_discrete}
use bulletin_board.Pool.{Server, Phase, Hold, Worker, new_thread}
use bulletin_board.Pool.Acts.{Shared, Act}
use bulletin_board.Pool.Threads.{
  World, kill_from, restart, request_at, Event, event, Step, act, kill, joined, start_again,
}
use bulletin_board.Pool.Weights.{start_servers-Grown, get_elem?-append, lt-length}

-- A thread at `i` that stands at `p` with the hold `h`.
abbrev pub IsAt : ℕ → Phase → Hold → World → Type 0
IsAt i p h w = (q : Worker) × (get_elem? w.threads i ≡ some q) × (q.phase ≡ p) × (q.hold ≡ h)

-- A step of the thread `i` itself.
abbrev pub Acts : ℕ → Phase → Hold → World → Event → Type 0
Acts i p h w ev =
    (v : Server) × (r : Bool) × (s : Shared) × (p' : Phase) × (h' : Hold) × (heard : Bool) × Act v
      w.shared r p h s p' h' heard
    × (ev ≡ event heard i)

set_other :
    (ts : List Worker) (i j : ℕ) (v q : Worker)
    → i ≢ j
    → get_elem? ts j ≡ some q
    → get_elem? (set ts i v) j ≡ some q
set_other [] i j v q ne h = cc
set_other (t ∷ ts) zero zero v q ne h = absurd (ne refl)
set_other (t ∷ ts) zero (suc j) v q ne h = h
set_other (t ∷ ts) (suc i) zero v q ne h = h
set_other (t ∷ ts) (suc i) (suc j) v q ne h = set_other ts i j v q (λ e. ne (ap suc e)) h

request_at-IsAt :
    (k : ℕ) (ts : List Worker) (i : ℕ) (p : Worker)
    → get_elem? ts i ≡ some p
    → (q : Worker) × (get_elem? (request_at k ts) i ≡ some q)
      × (q.phase ≡ p.phase)
      × (q.hold ≡ p.hold)
request_at-IsAt k [] i p h = cc
request_at-IsAt zero (t ∷ ts) zero p h = (_, refl, cc, cc)
request_at-IsAt zero (t ∷ ts) (suc i) p h = (p, h, refl, refl)
request_at-IsAt (suc k) (t ∷ ts) zero p h = (p, h, refl, refl)
request_at-IsAt (suc k) (t ∷ ts) (suc i) p h = request_at-IsAt k ts i p h

kill_from-IsAt :
    (k i : ℕ) (p : Phase) (h : Hold) (w : World) → IsAt i p h w → IsAt i p h (kill_from k w)
unfolding kill_from
kill_from-IsAt k i p h w (q, at, e, f) = elim (Bool-cases (ltb k (length w.threads))) [
  | inl b ↦
      let (q', at', e', f') = request_at-IsAt k w.threads i q at in rw b (q', at', e' ∙ e, f' ∙ f)
  | inr b ↦ rw b (q, at, e, f)
]

restart-IsAt :
    (pthread_create : Server → ℕ → Bool) (tmax i : ℕ) (p : Phase) (h : Hold) (w : World)
    → IsAt i p h w
    → IsAt i p h (restart pthread_create tmax w)
unfolding restart
restart-IsAt creates tmax i p h w (q, at, e, f) =
    let (vs, grown) = start_servers-Grown creates tmax w.threads in
    (
      q,
      ap (λ ts. get_elem? ts i) grown
          ∙ get_elem?-append w.threads (map new_thread vs) i (lt-length w.threads i q at)
          ∙ at,
      e,
      f,
    )

pub Step-stays :
    {w t : World} {ev : Event} (i : ℕ) (p : Phase) (h : Hold)
    → Step w ev t
    → IsAt i p h w
    → Acts i p h w ev ⊎ IsAt i p h t
Step-stays {w} i p h (act j q' {s} {ph} {h = g} {heard} at' m) (q, at, e, f) =
    elim (ℕ_discrete j i) [
      | yes y ↦
          let standing : q'.phase ≡ p = cc in
          let holding : q'.hold ≡ h = cc in
          inl (
            q'.server,
            q'.requested,
            s,
            ph,
            g,
            heard,
            subst (λ x. Act q'.server w.shared q'.requested x h s ph g heard) standing
                (subst (λ x. Act q'.server w.shared q'.requested q'.phase x s ph g heard) holding
                  m),
            ap (event heard) y,
          )
      | no n ↦ inr (q, set_other w.threads j i (record q' { phase = ph; hold = g }) q n at, e, f)
    ]
Step-stays {w} i p h (kill e) a = inr (kill_from-IsAt w.first i p h w a)
Step-stays {w} i p h (joined k q e at o) a = inr (kill_from-IsAt (suc k) i p h w a)
Step-stays {w} i p h (start_again creates tmax e) a = inr (restart-IsAt creates tmax i p h w a)
