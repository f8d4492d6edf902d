-- ===== src/Transaction/Writes.antt =====
-- Transactions of a WRITE.
use bulletin_board.Base.{◌≡◌, ◌⊎◌, inl, inr, refl, ap, ◌∙◌, true, false, [], ◌∷◌, arith, Bool-cases}
use bulletin_board.Base.Int.{pos}
use bulletin_board.Text.{
  Bytes, codes, tokenize, print_code, create_message, snprintf, c_str, has_infix, starts_with,
}
use bulletin_board.Text.Decimal.{to_string, digits}
use bulletin_board.Text.Lines.{IsLine-append, IsLine-HasNoNul}
use bulletin_board.Text.Tokens.{tokenize_two}
use bulletin_board.Store.{Store, done}
use bulletin_board.BoardFile.{no_operation, write_operation, wrote, unavailable}
use bulletin_board.BoardFile.State.{IsFree}
use bulletin_board.BoardFile.Write.{written, write_operation_effect}
use bulletin_board.SyncServer.{operation_failed}
use bulletin_board.SyncServer.Decision.{Verdict, keep, undone}
use bulletin_board.SyncServer.Flows.{
  IsArgument, write_command, outcome, written_messages, write_connection,
}
use bulletin_board.Text.{socket_message, join_two_strings_with_delimiter}
use bulletin_board.BoardServer.{completion_answer}
use bulletin_board.PeerCommunication.{local_operation, local_operation_on}
use bulletin_board.Transaction.Change.{Change, decided}

-- A slave whose file can be used and whose lock is free.
pub record Healthy (s : Store) : Type 0 where
  pub readable : s.readable ≡ true
  pub writable : s.writable ≡ true
  pub free : IsFree s.access_data

-- What the master's own WRITE does: it is refused, or it writes.
pub local_write :
    (user text : Bytes) (s : Store)
    → IsArgument text
    → IsFree s.access_data
    → ((response : Bytes) × (local_operation user (write_command text) s ≡ done response s)
        × (operation_failed response ≡ true))
      ⊎ (local_operation user (write_command text) s
          ≡ done (wrote (pos s.message_number) false) (written user text false s))
unfolding local_operation local_operation_on
local_write user text s (l, w, lt) free =
    let tokens : tokenize (write_command text) b' ' ≡ codes "WRITE" ∷ text ∷ [] =
      tokenize_two b' ' (codes "WRITE") text
        (IsLine-HasNoNul (write_command text) (IsLine-append (codes "WRITE ") text (omega arith) l))
        (ground arith, omega arith) w in
    elim (Bool-cases s.writable) [
      | inl yes' ↦ inr (
          ap (λ t. local_operation_on user t s) tokens
          ∙ ground (arith, write_operation_effect user text false no_operation s yes' free))
      | inr no' ↦ inl (
        unavailable false (codes "bbfile currently unavailable"),
        ap (λ t. local_operation_on user t s) tokens ∙ unfold write_operation in ground arith,
        unfold operation_failed has_infix starts_with unavailable create_message snprintf c_str
              print_code to_string digits in
            refl,
      )
    ]

pub write_failure : operation_failed (completion_answer (codes "WRITE") []) ≡ true
unfolding completion_answer join_two_strings_with_delimiter operation_failed has_infix starts_with
    create_message socket_message snprintf c_str print_code to_string digits
write_failure = refl

pub outcome-decided :
    (v : Verdict) (user text : Bytes) (s : Store)
    → outcome v user text s ≡ decided v (written user text false s) s
outcome-decided keep user text s = refl
outcome-decided undone user text s = refl

abbrev pub write_change : (user text : Bytes) → IsArgument user → IsArgument text → Change user
write_change user text u a = record {
  name = codes "WRITE";
  command = write_command text;
  IsReady = λ s. IsFree s.access_data;
  IsHealthy = Healthy;
  answer = λ s. wrote (pos s.message_number) false;
  changed = written user text false;
  carried_out = λ s free. local_write user text s a free;
  failure = write_failure;
  connection = λ s rs v h d. (
    written_messages s,
    write_connection user text s rs v u a h.readable h.writable h.free d
        ∙ ap (done (written_messages s)) (outcome-decided v user text s),
  );
}
