-- ===== src/Pool/Sockets.antt =====
-- Each socket of a client belongs to one thread, and killThreads leaves none open.
use bulletin_board.Base.{
  ℕ, suc, ◌+◌, ◌≤◌, ◌<◌, ◌≡◌, inl, inr, refl, sym, ap, ◌∙◌, Bool, true, false, List, [], ◌∷◌, arith,
  ◌==◌, ==_iff, set, Bool-cases,
}
use bulletin_board.Base.Counting.{total, total-set, le-total, total-zero}
use bulletin_board.Pool.{
  Server, Phase, accepting, receiving, handling, abandoning, closing, returned, cancelled, Hold,
  Worker, close_socket, is_over,
}
use bulletin_board.Pool.Acts.{
  Shared, same, Act, accept, accept_fails, receive, hang_up, write_waits, write_enters,
  write_enters_late, write_deadlocks, write_leaves, read_enters, read_leaves, next_request, refuse,
  leave_loop, closed_by_master, abandon, nothing_to_abandon, close, cancel_accept, cancel, opened,
  closed,
}
use bulletin_board.Pool.Threads.{
  Event, World, kill_from, finished, restart, empty_world, Step, act, kill, joined, start_again,
  Reach, started, later,
}
use bulletin_board.Pool.Weights.{total-start_servers, total-kill_from, kill_from-shared}
use bulletin_board.Pool.Joined.{finished-all}
use bulletin_board.Pool.Invariant.{SocketInv, socket_of, socket_at, socket_of-cancellable}

same_self : (e : ℕ) → same e e ≡ 1
unfolding same
same_self e = ground arith

total-close_socket :
    (e x : ℕ) (xs : List ℕ)
    → 0 < total (same x) xs
    → total (same e) (close_socket x xs) + same e x ≡ total (same e) xs
unfolding total close_socket same
total-close_socket e x [] lt = absurd (omega arith)
total-close_socket e x (y ∷ ys) lt = elim (Bool-cases (x == y)) [
  | inl q ↦ rw (q, sym ((==_iff x y).0 q)) (omega arith)
  | inr q ↦ rw q (omega (arith, total-close_socket e x ys (ground (arith, lt, q))))
]

-- A thread goes from one place to another, and the other threads stay.
module _ (s : Shared) (ts ts' : List Worker) (p p' : Phase) (inv : SocketInv s ts)
    (moves : (e : ℕ)
      → total (socket_at e) ts' + socket_of e p ≡ total (socket_at e) ts + socket_of e p')
    (present : (e : ℕ) → socket_of e p ≤ total (socket_at e) ts) where
  keeps :
      (s' : Shared)
      → s'.sockets ≡ s.sockets
      → ((e : ℕ) → socket_of e p ≡ socket_of e p')
      → SocketInv s' ts'
  keeps s' q stays = record {
    owned = λ e. ap (total (same e)) q ∙ omega (arith, inv.owned e, moves e, stays e);
    once = λ e. omega (arith, ap (total (same e)) q, inv.once e);
  }

  closes :
      (x : ℕ)
      → ((e : ℕ) → socket_of e p ≡ same e x)
      → ((e : ℕ) → socket_of e p' ≡ 0)
      → SocketInv (closed x s) ts'
  closes x from to = record {
    owned = λ e. omega (arith, shut e, inv.owned e, moves e, from e, to e);
    once = λ e. omega (arith, shut e, inv.once e);
  }
    where
      is_open : 0 < total (same x) s.sockets
      is_open = omega (arith, same_self x, from x, present x, inv.owned x)

      shut :
          (e : ℕ) → total (same e) (close_socket x s.sockets) + same e x ≡ total (same e) s.sockets
      shut e = total-close_socket e x s.sockets is_open

  opens :
      (x : ℕ)
      → total (same x) s.sockets ≡ 0
      → ((e : ℕ) → socket_of e p ≡ 0)
      → ((e : ℕ) → socket_of e p' ≡ same e x)
      → SocketInv (opened x s) ts'
  unfolding total same
  opens x new from to = record {
    owned = λ e. ground (arith, inv.owned e, moves e, from e, to e);
    once = λ e. elim (Bool-cases (e == x)) [
      | inl q ↦ ground (arith, new, q, ap (λ k. total (same k) s.sockets) ((==_iff e x).0 q))
      | inr q ↦ ground (arith, q, inv.once e)
    ];
  }

Act-SocketInv :
    {v : Server} {r : Bool} (s : Shared) {s' : Shared} (p : Phase) {p' : Phase} {h h' : Hold}
    {heard : Bool} (ts ts' : List Worker)
    → Act v s r p h s' p' h' heard
    → SocketInv s ts
    → ((e : ℕ) → total (socket_at e) ts' + socket_of e p ≡ total (socket_at e) ts + socket_of e p')
    → ((e : ℕ) → socket_of e p ≤ total (socket_at e) ts)
    → SocketInv s' ts'
Act-SocketInv s {s'} accepting ts ts' (accept x new) inv moves present =
    opens s ts ts' accepting (receiving x true) inv moves present x new (λ e. refl) (λ e. refl)
Act-SocketInv s {s'} accepting ts ts' accept_fails inv moves present =
    keeps s ts ts' accepting returned inv moves present s' refl (λ k. refl)
Act-SocketInv s {s'} (receiving e b) ts ts' receive inv moves present =
    keeps s ts ts' (receiving e b) (handling e) inv moves present s' refl (λ k. refl)
Act-SocketInv s {s'} (receiving e b) ts ts' hang_up inv moves present =
    keeps s ts ts' (receiving e b) (abandoning e b) inv moves present s' refl (λ k. refl)
Act-SocketInv s {s'} (handling e) ts ts' (next_request g) inv moves present =
    keeps s ts ts' (handling e) (receiving e true) inv moves present s' refl (λ k. refl)
Act-SocketInv s {s'} (handling e) ts ts' (refuse g) inv moves present =
    keeps s ts ts' (handling e) (receiving e false) inv moves present s' refl (λ k. refl)
Act-SocketInv s {s'} (handling e) ts ts' (leave_loop g) inv moves present =
    keeps s ts ts' (handling e) (closing e false) inv moves present s' refl (λ k. refl)
Act-SocketInv s {s'} (handling e) ts ts' (closed_by_master g g2) inv moves present =
    keeps s ts ts' (handling e) (abandoning e false) inv moves present s' refl (λ k. refl)
Act-SocketInv s {s'} (abandoning e b) ts ts' abandon inv moves present =
    keeps s ts ts' (abandoning e b) (closing e b) inv moves present s' refl (λ k. refl)
Act-SocketInv s {s'} (abandoning e b) ts ts' (nothing_to_abandon g) inv moves present =
    keeps s ts ts' (abandoning e b) (closing e b) inv moves present s' refl (λ k. refl)
Act-SocketInv s {s'} accepting ts ts' (cancel_accept g) inv moves present =
    keeps s ts ts' accepting cancelled inv moves present s' refl (λ k. refl)
Act-SocketInv s {s'} (handling e) ts ts' (write_waits g) inv moves present =
    keeps s ts ts' (handling e) (handling e) inv moves present s' refl (λ k. refl)
Act-SocketInv s {s'} (handling e) ts ts' (write_enters g) inv moves present =
    keeps s ts ts' (handling e) (handling e) inv moves present s' refl (λ k. refl)
Act-SocketInv s {s'} (handling e) ts ts' (write_enters_late g) inv moves present =
    keeps s ts ts' (handling e) (handling e) inv moves present s' refl (λ k. refl)
Act-SocketInv s {s'} (handling e) ts ts' write_deadlocks inv moves present =
    keeps s ts ts' (handling e) (handling e) inv moves present s' refl (λ k. refl)
Act-SocketInv s {s'} (handling e) ts ts' write_leaves inv moves present =
    keeps s ts ts' (handling e) (handling e) inv moves present s' refl (λ k. refl)
Act-SocketInv s {s'} (handling e) ts ts' (read_enters g g2) inv moves present =
    keeps s ts ts' (handling e) (handling e) inv moves present s' refl (λ k. refl)
Act-SocketInv s {s'} (handling e) ts ts' read_leaves inv moves present =
    keeps s ts ts' (handling e) (handling e) inv moves present s' refl (λ k. refl)
Act-SocketInv s {s'} (closing x b) ts ts' close inv moves present =
    closes s ts ts' (closing x b) accepting inv moves present x (λ e. refl) (λ e. refl)
Act-SocketInv s {s'} p ts ts' (cancel {e = x} g at) inv moves present =
    closes s ts ts' p cancelled inv moves present x (λ e. socket_of-cancellable e x p at)
      (λ e. refl)

kill_from-SocketInv :
    (k : ℕ) (w : World)
    → SocketInv w.shared w.threads
    → SocketInv (kill_from k w).shared (kill_from k w).threads
kill_from-SocketInv k w inv = rw (kill_from-shared k w) (record {
  owned = λ e. inv.owned e ∙ sym (total-kill_from (socket_at e) (λ p. refl) k w);
  once = inv.once;
})

restart-SocketInv :
    (pthread_create : Server → ℕ → Bool) (tmax : ℕ) (w : World)
    → SocketInv w.shared w.threads
    → SocketInv (restart pthread_create tmax w).shared (restart pthread_create tmax w).threads
unfolding restart
restart-SocketInv creates tmax w inv = record {
  owned =
      λ e. inv.owned e ∙ sym (total-start_servers (socket_at e) (λ v. refl) creates tmax w.threads);
  once = inv.once;
}

Step-SocketInv :
    {w t : World} {e : Event}
    → Step w e t
    → SocketInv w.shared w.threads
    → SocketInv t.shared t.threads
Step-SocketInv {w} (act i p {s} {ph} {h} at m) inv =
    Act-SocketInv w.shared p.phase w.threads (set w.threads i (record p { phase = ph; hold = h })) m
      inv (λ e. total-set (socket_at e) w.threads i p (record p { phase = ph; hold = h }) at)
      (λ e. le-total (socket_at e) w.threads i p at)
Step-SocketInv {w} (kill e) inv = kill_from-SocketInv w.first w inv
Step-SocketInv {w} (joined k p e at o) inv = kill_from-SocketInv (suc k) w inv
Step-SocketInv {w} (start_again creates tmax e) inv = restart-SocketInv creates tmax w inv

pub Reach-SocketInv : {w : World} → Reach w → SocketInv w.shared w.threads
unfolding total
Reach-SocketInv (started creates tmax) =
    restart-SocketInv creates tmax empty_world
      (record { owned = λ e. refl; once = λ e. omega arith })
Reach-SocketInv (later r st) = Step-SocketInv st (Reach-SocketInv r)

socket_of-over : (e : ℕ) (p : Phase) → is_over p ≡ true → socket_of e p ≡ 0
socket_of-over e accepting h = cc
socket_of-over e (receiving x b) h = cc
socket_of-over e (handling x) h = cc
socket_of-over e (abandoning x b) h = cc
socket_of-over e (closing x b) h = cc
socket_of-over e returned h = refl
socket_of-over e cancelled h = refl

none_open : (xs : List ℕ) → ((e : ℕ) → total (same e) xs ≡ 0) → xs ≡ []
unfolding total
none_open [] h = refl
none_open (x ∷ xs) h = absurd (omega (arith, h x, same_self x))

-- In every reachable world the descriptors of clients are different from each other, and each
-- belongs to one thread.
pub sockets_owned :
    {w : World} (e : ℕ)
    → Reach w
    → (total (same e) w.shared.sockets ≡ total (socket_at e) w.threads)
      × (total (same e) w.shared.sockets ≤ 1)
sockets_owned e r = let inv = Reach-SocketInv r in (inv.owned e, inv.once e)

-- In every reachable world whose killThreads has joined all threads, no client's socket is open.
pub sockets_closed : {w : World} → Reach w → w.killer ≡ finished → w.shared.sockets ≡ []
sockets_closed {w} r e = none_open w.shared.sockets (λ x.
    (sockets_owned x r).0
    ∙ total-zero (socket_at x) w.threads
        (λ i p at. socket_of-over x p.phase (finished-all r e i p at)))
