-- ===== src/Pool/Weights.antt =====
-- What a step does to the list of threads, for a weight of each thread that pthread_cancel leaves
-- and that is 0 on a thread which starts.
use bulletin_board.Base.{
  ℕ, zero, suc, ◌+◌, ◌<◌, ◌≡◌, inl, inr, refl, sym, ap, ◌∙◌, Bool, true, false, some, List, [], ◌∷◌,
  ◌++◌, map, append-nil, append_assoc, arith, Bool-cases, if◌then◌else◌, ltb, length, get_elem?,
}
use mathlib.Core.List.{map-append}
use bulletin_board.Base.Counting.{total}
use bulletin_board.Pool.{Server, board, sync, Worker, new_thread, create_threads, start_servers}
use bulletin_board.Pool.Threads.{World, request, request_at, kill_from}

extend_once :
    (xs : List Worker) (v : Server) (vs : List Server)
    → (xs ++ (new_thread v ∷ [])) ++ map new_thread vs ≡ xs ++ map new_thread (v ∷ vs)
extend_once xs v vs = simp append_assoc

-- The list `xs` with new threads behind it.
abbrev pub Grown : List Worker → List Worker → Type 0
Grown xs ys = (vs : List Server) × (ys ≡ xs ++ map new_thread vs)

Grown-refl : (xs : List Worker) → Grown xs xs
Grown-refl xs = ([], sym (append-nil xs))

Grown-add : (xs ys : List Worker) (v : Server) → Grown (xs ++ (new_thread v ∷ [])) ys → Grown xs ys
Grown-add xs ys v (vs, e) = (v ∷ vs, e ∙ extend_once xs v vs)

Grown-trans : (xs ys zs : List Worker) → Grown xs ys → Grown ys zs → Grown xs zs
Grown-trans xs ys zs (us, d) (vs, e) = (us ++ vs, simp (d, e, map-append, append_assoc))

either_grows :
    (b : Bool) (xs : List Worker) (r : List Worker × ℕ)
    → Grown xs r.0
    → Grown xs (if b then r else (xs, 1)).0
either_grows true xs r g = g
either_grows false xs r g = Grown-refl xs

create_threads-Grown :
    (pthread_create : ℕ → Bool) (n : ℕ) (v : Server) (ts : List Worker)
    → Grown ts (create_threads pthread_create n v ts).0
unfolding create_threads
create_threads-Grown creates zero v ts = Grown-refl ts
create_threads-Grown creates (suc n) v ts =
    let rest = create_threads creates n v (ts ++ (new_thread v ∷ [])) in
    either_grows (creates n) ts rest
      (Grown-add ts rest.0 v (create_threads-Grown creates n v (ts ++ (new_thread v ∷ []))))

pub start_servers-Grown :
    (pthread_create : Server → ℕ → Bool) (tmax : ℕ) (ts : List Worker)
    → Grown ts (start_servers pthread_create tmax ts)
unfolding start_servers
start_servers-Grown creates tmax ts =
    let boards = (create_threads (creates board) tmax board ts).0 in
    Grown-trans ts boards (create_threads (creates sync) 1 sync boards).0
      (create_threads-Grown (creates board) tmax board ts)
      (create_threads-Grown (creates sync) 1 sync boards)

total-append : (w : Worker → ℕ) (xs ys : List Worker) → total w (xs ++ ys) ≡ total w xs + total w ys
unfolding total
total-append w [] ys = omega arith
total-append w (x ∷ xs) ys = omega (arith, total-append w xs ys)

pub get_elem?-append :
    (xs ys : List Worker) (i : ℕ) → i < length xs → get_elem? (xs ++ ys) i ≡ get_elem? xs i
get_elem?-append [] ys i lt = absurd (omega arith)
get_elem?-append (x ∷ xs) ys zero lt = refl
get_elem?-append (x ∷ xs) ys (suc i) lt = get_elem?-append xs ys i (omega arith)

pub lt-length : (xs : List Worker) (i : ℕ) (p : Worker) → get_elem? xs i ≡ some p → i < length xs
lt-length [] i p h = cc
lt-length (x ∷ xs) zero p h = omega arith
lt-length (x ∷ xs) (suc i) p h = omega (arith, lt-length xs i p h)

module _ (w : Worker → ℕ) (starts : (v : Server) → w (new_thread v) ≡ 0) where
  total-new_threads : (vs : List Server) → total w (map new_thread vs) ≡ 0
  unfolding total
  total-new_threads [] = refl
  total-new_threads (v ∷ vs) = omega (arith, starts v, total-new_threads vs)

  pub total-start_servers :
      (pthread_create : Server → ℕ → Bool) (tmax : ℕ) (ts : List Worker)
      → total w (start_servers pthread_create tmax ts) ≡ total w ts
  total-start_servers creates tmax ts =
      let (vs, e) = start_servers-Grown creates tmax ts in
      ap (total w) e ∙ omega (arith, total-append w ts (map new_thread vs), total-new_threads vs)

module _ (w : Worker → ℕ) (requested : (p : Worker) → w (request p) ≡ w p) where
  total-request_at : (k : ℕ) (ts : List Worker) → total w (request_at k ts) ≡ total w ts
  unfolding total
  total-request_at k [] = refl
  total-request_at zero (p ∷ ts) = omega (arith, requested p)
  total-request_at (suc k) (p ∷ ts) = omega (arith, total-request_at k ts)

  pub total-kill_from : (k : ℕ) (x : World) → total w (kill_from k x).threads ≡ total w x.threads
  unfolding kill_from
  total-kill_from k x = elim (Bool-cases (ltb k (length x.threads))) [
    | inl e ↦ rw e (total-request_at k x.threads)
    | inr e ↦ rw e refl
  ]

pub kill_from-shared : (k : ℕ) (x : World) → (kill_from k x).shared ≡ x.shared
unfolding kill_from
kill_from-shared k x = ground arith

-- Requesting changes neither the length nor how far a thread is.
pub request_at-phase :
    (k : ℕ) (ts : List Worker) (i : ℕ) (p : Worker)
    → get_elem? (request_at k ts) i ≡ some p
    → (q : Worker) × (get_elem? ts i ≡ some q) × (p.phase ≡ q.phase) × (p.hold ≡ q.hold)
request_at-phase k [] i p h = cc
request_at-phase zero (t ∷ ts) zero p h = (t, refl, cc, cc)
request_at-phase zero (t ∷ ts) (suc i) p h = (p, h, refl, refl)
request_at-phase (suc k) (t ∷ ts) zero p h = (p, h, refl, refl)
request_at-phase (suc k) (t ∷ ts) (suc i) p h = request_at-phase k ts i p h

pub length-request_at : (k : ℕ) (ts : List Worker) → length (request_at k ts) ≡ length ts
length-request_at k [] = refl
length-request_at zero (t ∷ ts) = refl
length-request_at (suc k) (t ∷ ts) = ap suc (length-request_at k ts)
