-- ===== src/Tests/Whole.antt =====
-- Whole transactions: the boards of all peers, the steps that are left, and who is woken.
use bulletin_board.Store.{M}
use bulletin_board.Text.{Bytes}
use bulletin_board.Base.{
  ℕ, zero, suc, ◌*◌, ◌≤◌, ◌≡◌, ◌≢◌, ◌⊎◌, refl, true, false, some, [], ◌∷◌, arith, get_elem?,
  replicate,
}
use bulletin_board.Base.Int.{pos}
use bulletin_board.Text.{codes}
use bulletin_board.Store.{Store, done}
use bulletin_board.BoardFile.{wrote}
use bulletin_board.PeerCommunication.{
  new_statistics, acknowledge_ready, waits_for_ready, Ending, confirmed, Phase, connecting, ended,
  broken, broken_commit,
}
use bulletin_board.PeerCommunication.Threads.{connect, receive_ready, send_commit, System}
use bulletin_board.PeerCommunication.Steps.{
  Advance, advance, Advances, here, further, steps_bounded,
}
use bulletin_board.PeerCommunication.Progress.{progress}
use bulletin_board.PeerCommunication.Wakeups.{
  Scene, Plays, broadcasts, opening, continued, runs, sleeper-MustWait,
}
use bulletin_board.Tests.{board}
use bulletin_board.Tests.Transactions.{
  command, ready_message, ready_reaction, committing, committing-Reach, closed, after_write,
  one_ready, local_write,
}

abbrev finished : System
finished = closed (wrote (pos 2) false) after_write confirmed

-- The transaction as it ended in `finished`.
abbrev ran : Bytes → Bytes → M Bytes
ran user request s = done (wrote (pos 2) false) after_write

-- PRECOMMIT, READY and COMMIT, with one peer.
committing-Advances :
    Advances
      (codes "ann")
      command
      3
      (record {
        shared = record { statistics = new_statistics 1; store = board };
        threads = replicate 1 connecting;
      })
      (committing board)
unfolding waits_for_ready acknowledge_ready
committing-Advances = further (advance 0 refl connect refl) (
    further (advance 0 refl (receive_ready ready_message ready_reaction) refl)
      (further (advance 0 refl (send_commit refl) refl) here))

steps_bounded_example : 3 ≤ 1 * 9
steps_bounded_example =
    steps_bounded (codes "ann") command 3 1 board (committing board) committing-Advances

no_failure : (e : Ending) (i : ℕ) → get_elem? (committing board).threads i ≢ some (ended e)
no_failure e zero h = ground arith
no_failure e (suc i) h = cc

progress_example :
    ((i : ℕ) (p : Phase)
      → get_elem? (committing board).threads i ≡ some p
      → (e : Ending) × (p ≡ ended e))
    ⊎ ((t : System) × Advance (codes "ann") command (committing board) t)
progress_example =
    progress (committing-Reach board) (wrote (pos 2) false, after_write, local_write)
      (no_failure broken) (no_failure broken_commit)

-- One of two peers is READY, and its thread sleeps.
abbrev asleep : Scene
asleep = record { system = one_ready; asleep = true ∷ false ∷ [] }

asleep-Plays : Plays (codes "ann") command 2 board asleep
unfolding waits_for_ready acknowledge_ready broadcasts
asleep-Plays =
    continued (continued opening (runs 0 refl refl connect))
      (runs 0 refl refl (receive_ready ready_message ready_reaction))

sleeper-MustWait_example : waits_for_ready one_ready.shared.statistics ≡ true
sleeper-MustWait_example = sleeper-MustWait 0 asleep-Plays refl refl
