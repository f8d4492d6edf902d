-- ===== src/Tests/Signals.antt =====
-- Tests: the threads of both servers, started, at work, cancelled and started again.
use bulletin_board.Base.{ℕ, ◌≡◌, ◌⊎◌, refl, Bool, true, false, List, [], ◌∷◌}
use bulletin_board.Base.{zero, suc, arith}
use bulletin_board.Base.Counting.{total}
use bulletin_board.Lock.{
  AccessData, unlocked, announce_writer, enter_writer, writer_must_wait, reader_must_wait,
}
use bulletin_board.Pool.{
  Server, board, sync, Phase, accepting, receiving, handling, returned, cancelled, Hold, free,
  writing, Worker, create_threads, start_servers, close_socket,
}
use bulletin_board.Pool.Acts.{
  same, may_go_on, cancellable, accept, accept_fails, receive, write_enters, next_request,
  cancel_accept, cancel,
}
use bulletin_board.Pool.Threads.{
  World, Killer, idle, joins, finished, kill_from, restart, acts, signals, Step, act, kill, joined,
  start_again, Run, here, then_step, Reach, started, later,
}
use bulletin_board.Pool.Stays.{IsAt}
use bulletin_board.Pool.Sockets.{sockets_closed}
use bulletin_board.Pool.Locks.{LockLeft, lock_when_finished}
use bulletin_board.Pool.Stranded.{lock_lost, hearing, join_waits}
use bulletin_board.Pool.Shutdown.{Ready, is_ready, kill_threads_completes}
use bulletin_board.Pool.Quiet.{Quiet}

abbrev all_created : Server → ℕ → Bool
all_created v n = true

abbrev thread : Server → Phase → Bool → Hold → Worker
thread v p r h = record { server = v; phase = p; requested = r; hold = h }

abbrev with_writer : AccessData
with_writer = record { num_readers_active = 0; num_writers_waiting = 0; writer_active = true }

abbrev world : List ℕ → AccessData → List Worker → Killer → World
world xs a ts k = record {
  shared = record { sockets = xs; access = a };
  threads = ts;
  first = 0;
  killer = k;
}

-- One thread of the board and the one of the slave, which accepts, commits and awaits the decision.
abbrev at_start : World
at_start =
    world [] unlocked (thread board accepting false free ∷ thread sync accepting false free ∷ [])
      idle

at_start-Reach : Reach at_start
unfolding restart start_servers create_threads
at_start-Reach = started all_created 1

abbrev accepted : World
accepted =
    world (7 ∷ []) unlocked
      (thread board accepting false free ∷ thread sync (receiving 7 true) false free ∷ []) idle

accepted-Reach : Reach accepted
unfolding total same
accepted-Reach =
    later at_start-Reach (act 1 (thread sync accepting false free) refl (accept 7 refl))

abbrev in_commit : World
in_commit =
    world (7 ∷ []) unlocked
      (thread board accepting false free ∷ thread sync (handling 7) false free ∷ []) idle

abbrev committed : World
committed =
    world (7 ∷ []) with_writer
      (thread board accepting false free ∷ thread sync (handling 7) false writing ∷ []) idle

abbrev undecided : World
undecided =
    world (7 ∷ []) with_writer
      (thread board accepting false free ∷ thread sync (receiving 7 true) false writing ∷ []) idle

in_commit-Reach : Reach in_commit
in_commit-Reach =
    later accepted-Reach (act 1 (thread sync (receiving 7 true) false free) refl receive)

committed-Reach : Reach committed
unfolding announce_writer enter_writer writer_must_wait
committed-Reach =
    later in_commit-Reach (act 1 (thread sync (handling 7) false free) refl (write_enters refl))

undecided-Reach : Reach undecided
unfolding may_go_on
undecided-Reach =
    later committed-Reach (act 1 (thread sync (handling 7) false writing) refl (next_request refl))

-- SIGHUP while the slave awaits the decision
abbrev first_asked : World
first_asked =
    world (7 ∷ []) with_writer
      (thread board accepting true free ∷ thread sync (receiving 7 true) false writing ∷ [])
      (joins 0)

abbrev first_ended : World
first_ended =
    world (7 ∷ []) with_writer
      (thread board cancelled true free ∷ thread sync (receiving 7 true) false writing ∷ [])
      (joins 0)

abbrev second_asked : World
second_asked =
    world (7 ∷ []) with_writer
      (thread board cancelled true free ∷ thread sync (receiving 7 true) true writing ∷ [])
      (joins 1)

abbrev second_ended : World
second_ended =
    world [] with_writer
      (thread board cancelled true free ∷ thread sync cancelled true writing ∷ []) (joins 1)

abbrev all_ended : World
all_ended =
    world [] with_writer
      (thread board cancelled true free ∷ thread sync cancelled true writing ∷ []) finished

abbrev restarted : World
restarted = record {
  shared = record { sockets = []; access = with_writer };
  threads =
      thread board cancelled true free
      ∷ thread sync cancelled true writing
      ∷ thread board accepting false free
      ∷ thread sync accepting false free
      ∷ [];
  first = 2;
  killer = idle;
}

first_asked-Reach : Reach first_asked
unfolding kill_from
first_asked-Reach = later undecided-Reach (kill refl)

first_ended-Reach : Reach first_ended
first_ended-Reach =
    later first_asked-Reach (act 0 (thread board accepting true free) refl (cancel_accept refl))

second_asked-Reach : Reach second_asked
unfolding kill_from
second_asked-Reach =
    later first_ended-Reach (joined 0 (thread board cancelled true free) refl refl refl)

second_ended-Reach : Reach second_ended
unfolding cancellable close_socket
second_ended-Reach =
    later second_asked-Reach
      (act 1 (thread sync (receiving 7 true) true writing) refl (cancel refl refl))

all_ended-Step : Step second_ended signals all_ended
unfolding kill_from
all_ended-Step = joined 1 (thread sync cancelled true writing) refl refl refl

restarted-Step : Step all_ended signals restarted
unfolding restart start_servers create_threads
restarted-Step = start_again all_created 1 refl

all_ended-Reach : Reach all_ended
all_ended-Reach = later second_ended-Reach all_ended-Step

sockets_closed_example : all_ended.shared.sockets ≡ []
sockets_closed_example = sockets_closed all_ended-Reach refl

lock_when_finished_example : (all_ended.shared.access ≡ unlocked) ⊎ LockLeft all_ended
lock_when_finished_example = lock_when_finished all_ended-Reach refl

lock_lost_example :
    (writer_must_wait restarted.shared.access ≡ true)
    × (reader_must_wait restarted.shared.access ≡ true)
lock_lost_example =
    lock_lost 1 cancelled writing second_ended-Reach
      (thread sync cancelled true writing, refl, refl, refl) refl (omega arith)
      (then_step (then_step here all_ended-Step) restarted-Step)

-- The board's thread behind a REPLACE that was refused, which killThreads joins.
abbrev refused : World
refused =
    world (5 ∷ []) unlocked
      (thread board (receiving 5 false) true free ∷ thread sync accepting false free ∷ []) (joins 0)

-- The slave's thread fails in accept() meanwhile.
abbrev still_refused : World
still_refused =
    world (5 ∷ []) unlocked
      (thread board (receiving 5 false) true free ∷ thread sync returned false free ∷ []) (joins 0)

refused-Run : Run refused (acts 1 ∷ []) still_refused
refused-Run = then_step here (act 1 (thread sync accepting false free) refl accept_fails)

join_waits_example :
    (still_refused.killer ≡ joins 0) × IsAt 0 (receiving 5 false) free still_refused
unfolding total hearing
join_waits_example =
    join_waits 0 5 free refl (thread board (receiving 5 false) true free, refl, refl, refl)
      refused-Run refl

undecided-Ready : Ready 0 undecided.threads
unfolding is_ready
undecided-Ready zero p le h = cc
undecided-Ready (suc zero) p le h = cc
undecided-Ready (suc (suc i)) p le h = cc

kill_threads_completes_example :
    (t : World) × Quiet undecided t × (t.killer ≡ finished) × (t.shared.sockets ≡ [])
kill_threads_completes_example = kill_threads_completes undecided-Reach refl undecided-Ready
