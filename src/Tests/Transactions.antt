-- ===== src/Tests/Transactions.antt =====
-- Transactions of the master with one and two peers.
use bulletin_board.Base.{
  ℕ, ◌≡◌, ◌⊎◌, refl, ap, ◌∙◌, true, false, some, [], ◌∷◌, arith, if◌then◌else◌, get_elem?,
}
use bulletin_board.Base.Int.{pos}
use bulletin_board.Text.{
  Bytes, codes, socket_message, tokens_from, flush, str_eq, tokenize, create_message, snprintf,
  c_str, print_code,
}
use bulletin_board.Text.Decimal.{to_string, digits}
use bulletin_board.Store.{Store, done}
use bulletin_board.BoardFile.{no_operation, wrote, unavailable, write_operation}
use bulletin_board.SyncServer.{operation_failed}
use bulletin_board.PeerCommunication.{
  new_statistics, acknowledge_ready, waits_for_ready, acknowledge_commit, waits_for_commit,
  confirms, Ending, confirmed, undone, Phase, connecting, ready_waits, awaits_commit, commit_agreed,
  ended, react, react_to, answer_to, precommit_sent, commit_sent, ready, success, unsuccess,
  local_operation, local_operation_on,
}
use bulletin_board.PeerCommunication.Threads.{
  connect, receive_ready, send_commit, receive_success, agree, operate, send_decision, System, Step,
  step, Reach, start, later,
}
use bulletin_board.Text.{has_infix, starts_with}
use bulletin_board.LineReader.{Receipt, received}
use bulletin_board.BoardFile.Write.{written, write_operation_effect}
use bulletin_board.SyncServer.{ready_answer, commit_answer}
use bulletin_board.SyncServer.Answers.{operation_failed-wrote}
use bulletin_board.PeerCommunication.Outcome.{not_done}
use bulletin_board.PeerCommunication.Agreement.{master_operation, decisions_agree}
use bulletin_board.PeerCommunication.Answers.{react-commit_answer}
use bulletin_board.PeerCommunication.Blocked.{receive_failure_blocks}
use bulletin_board.Tests.{board, board-IsFree}

abbrev pub command : Bytes
command = codes "WRITE hello"

abbrev pub ready_message : Receipt
ready_message = received (socket_message 50 (codes "READY") ready_answer)

pub ready_reaction : react precommit_sent ready_message ≡ some ready
unfolding react react_to answer_to tokenize tokens_from flush c_str str_eq socket_message snprintf
    print_code to_string digits
ready_reaction = refl

abbrev success_message : Receipt
success_message = received (commit_answer (wrote (pos 2) true))

success_reaction : react commit_sent success_message ≡ some success
success_reaction =
    react-commit_answer (wrote (pos 2) true)
    ∙ ap (λ b. some (if b then unsuccess else success)) (operation_failed-wrote (pos 2) true)

-- One peer that has answered READY and has been sent COMMIT.
abbrev pub committing : Store → System
committing store = record {
  shared = record { statistics = acknowledge_ready (new_statistics 1); store = store };
  threads = awaits_commit ∷ [];
}

pub committing-Reach :
    {user request : Bytes} (store : Store) → Reach user request 1 store (committing store)
unfolding waits_for_ready acknowledge_ready
committing-Reach store =
    later
      (later (later start (step 0 refl connect))
        (step 0 refl (receive_ready ready_message ready_reaction)))
      (step 0 refl (send_commit refl))

-- It has answered COMMIT_SUCCESS.
abbrev agreed : Store → System
agreed store = record {
  shared = record {
    statistics = acknowledge_commit (acknowledge_ready (new_statistics 1));
    store = store;
  };
  threads = commit_agreed ∷ [];
}

pub agreed-Reach :
    {user request : Bytes} (store : Store) → Reach user request 1 store (agreed store)
unfolding waits_for_commit acknowledge_commit acknowledge_ready
agreed-Reach store =
    later
      (later (committing-Reach store)
        (step 0 refl (receive_success success_message success_reaction)))
      (step 0 refl (agree refl))

abbrev pub closed : Bytes → Store → Ending → System
closed response store e = record {
  shared = record {
    statistics = record (acknowledge_commit (acknowledge_ready (new_statistics 1))) {
      completion = response;
    };
    store = store;
  };
  threads = ended e ∷ [];
}

abbrev pub after_write : Store
after_write = written (codes "ann") (codes "hello") false board

pub local_write :
    local_operation (codes "ann") command board ≡ done (wrote (pos 2) false) after_write
unfolding local_operation local_operation_on tokenize tokens_from flush c_str str_eq
local_write = ground (
  arith,
  write_operation_effect (codes "ann") (codes "hello") false no_operation board refl board-IsFree,
)

pub confirmed-Reach :
    Reach (codes "ann") command 1 board (closed (wrote (pos 2) false) after_write confirmed)
unfolding confirms operation_failed has_infix starts_with wrote create_message snprintf c_str
    print_code to_string digits acknowledge_commit acknowledge_ready
confirmed-Reach =
    later (later (agreed-Reach board) (step 0 refl (operate refl local_write)))
      (step 0 refl send_decision)

-- A master whose own file cannot be written.
abbrev unwritable : Store
unwritable = record board { writable = false }

abbrev refusal : Bytes
refusal = unavailable false (codes "bbfile currently unavailable")

local_refusal : local_operation (codes "ann") command unwritable ≡ done refusal unwritable
unfolding local_operation local_operation_on tokenize tokens_from flush c_str str_eq write_operation
local_refusal = refl

undone-Reach : Reach (codes "ann") command 1 unwritable (closed refusal unwritable undone)
unfolding confirms operation_failed has_infix starts_with unavailable create_message snprintf c_str
    print_code to_string digits acknowledge_commit acknowledge_ready
undone-Reach =
    later (later (agreed-Reach unwritable) (step 0 refl (operate refl local_refusal)))
      (step 0 refl send_decision)

-- One of two peers is READY.
abbrev pub one_ready : System
one_ready = record {
  shared = record { statistics = acknowledge_ready (new_statistics 2); store = board };
  threads = ready_waits ∷ connecting ∷ [];
}

one_ready-Reach : Reach (codes "ann") command 2 board one_ready
unfolding waits_for_ready acknowledge_ready
one_ready-Reach =
    later (later start (step 0 refl connect))
      (step 0 refl (receive_ready ready_message ready_reaction))

master_operation_example :
    (after_write ≡ board)
    ⊎ ((local_operation (codes "ann") command board ≡ done (wrote (pos 2) false) after_write)
        × ((j : ℕ) (q : Phase)
            → get_elem? (closed (wrote (pos 2) false) after_write confirmed).threads j ≡ some q
            → not_done q ≡ 0))
master_operation_example = master_operation confirmed-Reach

decisions_agree_example : ¬ (
    get_elem? (closed (wrote (pos 2) false) after_write confirmed).threads 0 ≡ some (ended undone))
decisions_agree_example = decisions_agree 0 0 confirmed-Reach refl

receive_failure_blocks_example :
    (s : System) × Reach (codes "ann") command 2 board s
    × (get_elem? s.threads 0 ≡ some ready_waits)
    × ((t : System) → ¬ Step (codes "ann") command s t)
receive_failure_blocks_example = receive_failure_blocks (codes "ann") command board
