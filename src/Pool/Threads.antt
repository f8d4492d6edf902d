-- ===== src/Pool/Threads.antt =====
-- The threads of both servers and the thread that handles a signal, interleaved: killThreads cancels
-- and joins one thread after the other. The handlers are taken to run in the main thread.
use bulletin_board.Base.{
  ℕ, zero, suc, ◌≡◌, Bool, true, false, some, List, [], ◌∷◌, if◌then◌else◌, ltb, length, get_elem?,
  set,
}
use bulletin_board.Lock.{unlocked}
use bulletin_board.Pool.{Server, Phase, Hold, Worker, start_servers, is_over}
use bulletin_board.Pool.Acts.{Shared, Act}

-- What killThreads is at: nothing, the pthread_join of a thread, or it is through.
pub data Killer : Type 0 where
  idle : Killer
  joins : ℕ → Killer
  finished : Killer

-- `threads` also holds those that have ended; those from `first` on are in the two vectors.
pub record World : Type 0 where
  pub shared : Shared
  pub threads : List Worker
  pub first : ℕ
  pub killer : Killer

abbrev pub request : Worker → Worker
request p = record p { requested = true }

-- `pthread_cancel`
abbrev pub request_at : ℕ → List Worker → List Worker
request_at k [] = []
request_at zero (p ∷ ts) = request p ∷ ts
request_at (suc k) (p ∷ ts) = p ∷ request_at k ts

-- `killThreads` from the thread `k` on: the board's threads and then the other's
unfoldable pub kill_from : ℕ → World → World
kill_from k w =
    if ltb k (length w.threads)
    then record w { threads = request_at k w.threads; killer = joins k }
    else record w { killer = finished }

-- The start of the servers behind all the threads that have ended.
unfoldable pub restart : (Server → ℕ → Bool) → ℕ → World → World
unfolding start_servers
restart pthread_create tmax w = record w {
  threads = start_servers pthread_create tmax w.threads;
  first = length w.threads;
  killer = idle;
}

-- Who takes a step, and whether it waits for what comes on its socket.
pub data Event : Type 0 where
  hears : ℕ → Event
  acts : ℕ → Event
  signals : Event

abbrev pub event : Bool → ℕ → Event
event true i = hears i
event false i = acts i

abbrev pub move_to : World → ℕ → Worker → Shared → Phase → Hold → World
move_to w i p s ph h = record w {
  shared = s;
  threads = set w.threads i (record p { phase = ph; hold = h });
}

pub data Step (w : World) : Event → World → Type 0 where
  act :
      (i : ℕ) (p : Worker) {s : Shared} {ph : Phase} {h : Hold} {heard : Bool}
      → get_elem? w.threads i ≡ some p
      → Act p.server w.shared p.requested p.phase p.hold s ph h heard
      → Step w (event heard i) (move_to w i p s ph h)
  -- SIGHUP and SIGQUIT
  kill : w.killer ≡ idle → Step w signals (kill_from w.first w)
  -- pthread_join returns
  joined :
      (k : ℕ) (p : Worker)
      → w.killer ≡ joins k
      → get_elem? w.threads k ≡ some p
      → is_over p.phase ≡ true
      → Step w signals (kill_from (suc k) w)
  -- SIGHUP only
  start_again :
      (pthread_create : Server → ℕ → Bool) (tmax : ℕ)
      → w.killer ≡ finished
      → Step w signals (restart pthread_create tmax w)

abbrev pub empty_world : World
empty_world = record {
  shared = record { sockets = []; access = unlocked };
  threads = [];
  first = 0;
  killer = idle;
}

-- Steps from `w`, the last event first.
pub data Run (w : World) : List Event → World → Type 0 where
  here : Run w [] w
  then_step :
      {es : List Event} {e : Event} {t u : World} → Run w es t → Step t e u → Run w (e ∷ es) u

-- The worlds of a process that has started its servers.
pub data Reach : World → Type 0 where
  started :
      (pthread_create : Server → ℕ → Bool) (tmax : ℕ)
      → Reach (restart pthread_create tmax empty_world)
  later : {w t : World} {e : Event} → Reach w → Step w e t → Reach t
