-- ===== src/Pool.antt =====
-- The threads of both servers: the accept loops of handle_bulletin_board_client (board-server.cpp)
-- and handle_sync_server_client (sync-server.cpp) with the cancellation states they set, and
-- createThreads, killThreads and cleanup_handler of utilities.cpp. What a thread does to the board's
-- file and what it sends is modelled elsewhere; here it keeps its socket and its hold on the lock.
pub mod Acts
pub mod Threads
pub mod Weights
pub mod Invariant
pub mod Joined
pub mod Sockets
pub mod Locks
pub mod Stays
pub mod Stranded
pub mod Quiet
pub mod Shutdown
use bulletin_board.Base.{
  ℕ, zero, suc, ◌≡◌, Bool, true, false, List, [], ◌∷◌, ◌++◌, if◌then◌else◌, ◌==◌,
}

pub data Server : Type 0 where
  board : Server
  sync : Server

-- Where a thread stands. `enabled` is its cancellation state: disabled behind a `continue`.
pub data Phase : Type 0 where
  -- in accept()
  accepting : Phase
  -- in readlineFromSocket or recv_nonblock, or in the greeting before it
  receiving : ℕ → Bool → Phase
  -- in the body of the loop over the requests
  handling : ℕ → Phase
  -- behind that loop, where the slave takes its operation back
  abandoning : ℕ → Bool → Phase
  -- at the shutdown and close of the socket
  closing : ℕ → Bool → Phase
  -- ended by `return nullptr`, and by pthread_cancel
  returned : Phase
  cancelled : Phase

-- A thread's part in the readers-writer lock. `kept` is the lock of an earlier connection, which
-- was left without its release; `deadlocked` waits for the lock that the thread itself has kept.
pub data Hold : Type 0 where
  free : Hold
  reading : Hold
  waiting : Hold
  writing : Hold
  kept : Hold
  deadlocked : Hold

-- `requested`: pthread_cancel has been called for the thread.
pub record Worker : Type 0 where
  pub server : Server
  pub phase : Phase
  pub requested : Bool
  pub hold : Hold

abbrev pub new_thread : Server → Worker
new_thread v = record { server = v; phase = accepting; requested = false; hold = free }

-- `createThreads`; `pthread_create` tells whether a thread can be had.
unfoldable pub create_threads :
    (pthread_create : ℕ → Bool) → ℕ → Server → List Worker → List Worker × ℕ
create_threads pthread_create zero v threads = (threads, 0)
create_threads pthread_create (suc n) v threads =
    let rest = create_threads pthread_create n v (threads ++ (new_thread v ∷ [])) in
    if pthread_create n then rest else (threads, 1)

-- `startBulletinBoardServer` and then `startSyncServer`, whose one thread comes last
unfoldable pub start_servers : (Server → ℕ → Bool) → ℕ → List Worker → List Worker
unfolding create_threads
start_servers pthread_create tmax threads =
    let boards = (create_threads (pthread_create board) tmax board threads).0 in
    (create_threads (pthread_create sync) 1 sync boards).0

-- `close`: the descriptor is no longer open.
unfoldable pub close_socket : ℕ → List ℕ → List ℕ
close_socket e [] = []
close_socket e (x ∷ xs) = let rest = close_socket e xs in if e == x then xs else x ∷ rest

-- Whether a thread has ended.
abbrev pub is_over : Phase → Bool
is_over returned = true
is_over cancelled = true
is_over _ = false
