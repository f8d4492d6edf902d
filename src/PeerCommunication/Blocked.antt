-- ===== src/PeerCommunication/Blocked.antt =====
-- What a failed receive does to the threads of the other peers.
use bulletin_board.Base.{ℕ, zero, suc, ◌≡◌, refl, some, [], ◌∷◌, arith, get_elem?}
use bulletin_board.Text.{
  Bytes, codes, c_str, tokenize, tokens_from, flush, str_eq, socket_message, snprintf, print_code,
}
use bulletin_board.Text.Decimal.{to_string, digits}
use bulletin_board.LineReader.{Receipt, received, failed}
use bulletin_board.SyncServer.{ready_answer}
use bulletin_board.Store.{Store}
use bulletin_board.PeerCommunication.{
  new_statistics, acknowledge_ready, waits_for_ready, broken, Phase, ready_waits, ended, react,
  react_to, answer_to, precommit_sent, ready,
}
use bulletin_board.PeerCommunication.Threads.{
  Shared, Move, connect, break_ready, receive_ready, wake_ready, System, Step, step, Reach, start,
  later,
}

abbrev ready_message : Receipt
ready_message = received (socket_message 50 (codes "READY") ready_answer)

react-ready_message : react precommit_sent ready_message ≡ some ready
unfolding react react_to answer_to tokenize tokens_from flush c_str str_eq socket_message snprintf
    print_code to_string digits
react-ready_message = refl

-- One peer is READY; the receive from the other has failed.
abbrev pub stuck : Store → System
stuck store = record {
  shared = record { statistics = acknowledge_ready (new_statistics 2); store = store };
  threads = ready_waits ∷ ended broken ∷ [];
}

ended_is_final :
    {user command : Bytes} {s s' : Shared} {p p' : Phase}
    → Move user command s p s' p'
    → p ≡ ended broken
    → ⊥
ended_is_final connect e = cc
ended_is_final _ e = cc

no-Move :
    {user command : Bytes} {store : Store} {p p' : Phase} {s' : Shared} (i : ℕ)
    → get_elem? (stuck store).threads i ≡ some p
    → Move user command (stuck store).shared p s' p'
    → ⊥
unfolding waits_for_ready acknowledge_ready
no-Move zero e (wake_ready h) = cc
no-Move zero e _ = cc
no-Move (suc zero) e m = ended_is_final m (ground arith)
no-Move (suc (suc i)) e m = cc

no-Step :
    {user command : Bytes} {store : Store} {t : System} → Step user command (stuck store) t → ⊥
no-Step (step i e m) = no-Move i e m

reached : (user command : Bytes) (store : Store) → Reach user command 2 store (stuck store)
unfolding waits_for_ready acknowledge_ready
reached user command store =
    later
      (later (later (later start (step 0 refl connect)) (step 1 refl connect))
        (step 0 refl (receive_ready ready_message react-ready_message)))
      (step 1 refl (break_ready failed (unfold react in refl)))

-- With two peers, of which one answers READY and the receive from the other fails, a state is
-- reached in which the thread of the first waits and no thread has a step left: the client's
-- request is never answered.
pub receive_failure_blocks :
    (user command : Bytes) (store : Store)
    → (s : System) × Reach user command 2 store s
      × (get_elem? s.threads 0 ≡ some ready_waits)
      × ((t : System) → ¬ Step user command s t)
receive_failure_blocks user command store =
    (stuck store, reached user command store, refl, λ t. no-Step)
