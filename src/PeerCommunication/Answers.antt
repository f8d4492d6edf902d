-- ===== src/PeerCommunication/Answers.antt =====
-- What the master makes of the answers of a slave.
use bulletin_board.Base.{◌≡◌, inl, inr, refl, some, [], ◌∷◌, ◌++◌, if◌then◌else◌, Bool-cases, arith}
use bulletin_board.Text.{
  Bytes, codes, c_str, tokenize, tokens_from, flush, str_eq, socket_message, snprintf, print_code,
}
use bulletin_board.Text.Decimal.{to_string, digits}
use bulletin_board.LineReader.{received}
use bulletin_board.SyncServer.{operation_failed, commit_answer}
use bulletin_board.PeerCommunication.{commit_sent, success, unsuccess, answer_to, react, react_to}

react_success :
    (tail : Bytes)
    → react commit_sent (received (codes "5.0 COMMIT_SUCCESS " ++ tail)) ≡ some success
unfolding react react_to answer_to tokenize tokens_from flush c_str str_eq
react_success [] = refl
react_success (c ∷ tail) = refl

react_unsuccess :
    (tail : Bytes)
    → react commit_sent (received (codes "5.0 COMMIT_UNSUCCESS " ++ tail)) ≡ some unsuccess
unfolding react react_to answer_to tokenize tokens_from flush c_str str_eq
react_unsuccess [] = refl
react_unsuccess (c ∷ tail) = refl

success_message :
    (response : Bytes)
    → (tail : Bytes) × (socket_message 50 (codes "COMMIT_SUCCESS") response
        ≡ codes "5.0 COMMIT_SUCCESS " ++ tail)
unfolding socket_message snprintf c_str print_code to_string digits
success_message response = (_, refl)

unsuccess_message :
    (response : Bytes)
    → (tail : Bytes) × (socket_message 50 (codes "COMMIT_UNSUCCESS") response
        ≡ codes "5.0 COMMIT_UNSUCCESS " ++ tail)
unfolding socket_message snprintf c_str print_code to_string digits
unsuccess_message response = (_, refl)

-- The master reads from the slave's answer to COMMIT what the slave has found of its response, for
-- every response, cut or not.
pub react-commit_answer :
    (response : Bytes)
    → react commit_sent (received (commit_answer response))
      ≡ some (if operation_failed response then unsuccess else success)
unfolding commit_answer
react-commit_answer response = elim (Bool-cases (operation_failed response)) [
  | inl f ↦ let (tail, e) = unsuccess_message response in ground (arith, react_unsuccess tail)
  | inr f ↦ let (tail, e) = success_message response in ground (arith, react_success tail)
]
