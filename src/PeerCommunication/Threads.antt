-- ===== src/PeerCommunication/Threads.antt =====
-- peer-communication.cpp: the threads of one transaction, interleaved.
use bulletin_board.Base.{ℕ, ◌≡◌, true, false, some, List, if◌then◌else◌, set, get_elem?, replicate}
use bulletin_board.Text.{Bytes, is_empty}
use bulletin_board.LineReader.{Receipt}
use bulletin_board.Store.{Store, done}
use bulletin_board.PeerCommunication.{
  Phase, Statistics, aborted, acknowledge_commit, acknowledge_ready, awaits_commit, awaits_ready,
  broken, broken_commit, commit_agreed, commit_counted, commit_sent, commit_waits, confirmed,
  confirms, connecting, ended, local_operation, new_statistics, no_answer, notify_threads_to_abort,
  notify_threads_to_undo_commit, operated, passed_over, precommit_sent, react, ready, ready_counted,
  ready_waits, receive_failed, refused, success, unanswered, undone, unreached, unready, unsuccess,
  waits_for_commit, waits_for_ready,
}

-- The statistics and the master's board.
pub record Shared : Type 0 where
  pub statistics : Statistics
  pub store : Store

-- A step of one thread. What it does under peerCommunicationMutex is one step. A thread inside
-- pthread_cond_wait goes on at some time when its test fails; Wakeups says who wakes it.
pub data Move (user command : Bytes) (s : Shared) : Phase → Shared → Phase → Type 0 where
  connect : Move user command s connecting s awaits_ready
  connect_fails :
      Move user command s connecting
        (record s { statistics = notify_threads_to_abort s.statistics })
        (ended unreached)
  pass_ready :
      (r : Receipt)
      → react precommit_sent r ≡ some passed_over
      → Move user command s awaits_ready s awaits_ready
  lose_ready :
      (r : Receipt)
      → react precommit_sent r ≡ some no_answer
      → Move user command s awaits_ready
          (record s { statistics = notify_threads_to_abort s.statistics })
          (ended unready)
  break_ready :
      (r : Receipt)
      → react precommit_sent r ≡ some receive_failed
      → Move user command s awaits_ready s (ended broken)
  receive_ready :
      (r : Receipt)
      → react precommit_sent r ≡ some ready
      → Move user command s awaits_ready
          (record s { statistics = acknowledge_ready s.statistics })
          (if waits_for_ready (acknowledge_ready s.statistics) then ready_waits else ready_counted)
  wake_ready :
      waits_for_ready s.statistics ≡ false → Move user command s ready_waits s ready_counted
  send_abort :
      s.statistics.should_abort ≡ true → Move user command s ready_counted s (ended aborted)
  send_commit :
      s.statistics.should_abort ≡ false → Move user command s ready_counted s awaits_commit
  pass_commit :
      (r : Receipt)
      → react commit_sent r ≡ some passed_over
      → Move user command s awaits_commit s awaits_commit
  lose_commit :
      (r : Receipt)
      → react commit_sent r ≡ some no_answer
      → Move user command s awaits_commit
          (record s { statistics = notify_threads_to_undo_commit s.statistics })
          (ended unanswered)
  break_commit :
      (r : Receipt)
      → react commit_sent r ≡ some receive_failed
      → Move user command s awaits_commit s (ended broken_commit)
  receive_unsuccess :
      (r : Receipt)
      → react commit_sent r ≡ some unsuccess
      → Move user command s awaits_commit
          (record s { statistics = notify_threads_to_undo_commit s.statistics })
          (ended refused)
  receive_success :
      (r : Receipt)
      → react commit_sent r ≡ some success
      → Move user command s awaits_commit
          (record s { statistics = acknowledge_commit s.statistics })
          (if waits_for_commit (acknowledge_commit s.statistics)
            then commit_waits
            else commit_counted)
  wake_commit :
      waits_for_commit s.statistics ≡ false → Move user command s commit_waits s commit_counted
  skip_operation : s.statistics.did_fail ≡ true → Move user command s commit_counted s operated
  agree : s.statistics.did_fail ≡ false → Move user command s commit_counted s commit_agreed
  find_operated :
      is_empty s.statistics.completion ≡ false → Move user command s commit_agreed s operated
  operate :
      {response : Bytes} {store : Store}
      → is_empty s.statistics.completion ≡ true
      → local_operation user command s.store ≡ done response store
      → Move user command s commit_agreed
          (record { statistics = record s.statistics { completion = response }; store = store })
          operated
  send_decision :
      Move user command s operated s
        (if confirms s.statistics then ended confirmed else ended undone)

pub record System : Type 0 where
  pub shared : Shared
  pub threads : List Phase

pub data Step (user command : Bytes) (s : System) : System → Type 0 where
  step :
      (i : ℕ) {p p' : Phase} {s' : Shared}
      → get_elem? s.threads i ≡ some p
      → Move user command s.shared p s' p'
      → Step user command s (record { shared = s'; threads = set s.threads i p' })

-- The start: `peers` threads that have just been created, on the board `store`.
pub data Reach (user command : Bytes) (peers : ℕ) (store : Store) : System → Type 0 where
  start : Reach user command peers store (record {
    shared = record { statistics = new_statistics peers; store = store };
    threads = replicate peers connecting;
  })
  later :
      {s t : System}
      → Reach user command peers store s
      → Step user command s t
      → Reach user command peers store t
