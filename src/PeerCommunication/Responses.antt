-- ===== src/PeerCommunication/Responses.antt =====
-- The response of the master's own operation, and what it says of the board.
use bulletin_board.Base.{
  ◌≡◌, inl, inr, refl, true, false, ◌&&◌, Option, none, some, List, [], ◌∷◌, arith, Bool-cases,
}
use bulletin_board.Base.Int.{ℤ, pos}
use bulletin_board.Text.{
  Bytes, codes, str_eq, tokenize, create_message, snprintf, c_str, print_code,
}
use bulletin_board.Text.Decimal.{to_string, digits}
use bulletin_board.Store.{Store, done, bind, bind-eq-done, release_write_lock, acquire_write_lock}
use bulletin_board.BoardFile.{
  release_unless, Undo, no_operation, wrote, unavailable, write_operation, replace_operation,
  replace_with, replace_arguments, replace_message,
}
use bulletin_board.SyncServer.{operation_failed}
use bulletin_board.SyncServer.Answers.{operation_failed-wrote, operation_failed-unavailable}
use bulletin_board.Text.{is_empty}
use bulletin_board.PeerCommunication.{local_operation, local_operation_on}

-- A response has a text, and one that the caller takes for a failure leaves the board alone.
abbrev pub Answer : Store → Bytes → Store → Type 0
Answer s response t = (is_empty response ≡ false) × (operation_failed response ≡ true → t ≡ s)

is_empty-wrote : (n : ℤ) → is_empty (wrote n false) ≡ false
unfolding wrote create_message snprintf c_str print_code to_string digits
is_empty-wrote n = refl

write_operation-Answer :
    (user message : Bytes) (undo : Undo) (s : Store) (r : Bytes × Undo) (t : Store)
    → write_operation user message false undo s ≡ done r t
    → Answer s r.0 t
unfolding unavailable
write_operation-Answer user message undo s r t h = elim (Bool-cases s.writable) [
  | inr w ↦ unfold write_operation in ground (arith, operation_failed-unavailable)
  | inl w ↦
      unfold write_operation release_unless acquire_write_lock release_write_lock in
      ground (
        arith,
        is_empty-wrote (pos s.message_number),
        operation_failed-wrote (pos s.message_number) false,
      )
]

replace_with-Answer :
    (user : Bytes) (o : Option (ℤ × Bytes)) (b s : Store) (r : Bytes × Undo) (t : Store)
    → replace_with user false o s ≡ done r t
    → Answer b r.0 t
unfolding replace_with release_unless release_write_lock
replace_with-Answer user none b s r t h = cc
replace_with-Answer user (some (n, m)) b s r t h =
    let (u, s', e, h') = bind-eq-done (replace_message user n m s) _ h in
    ground (arith, is_empty-wrote n, operation_failed-wrote n false)

replace_operation-Answer :
    (user text : Bytes) (undo : Undo) (s : Store) (r : Bytes × Undo) (t : Store)
    → replace_operation user text false undo s ≡ done r t
    → Answer s r.0 t
unfolding unavailable
replace_operation-Answer user text undo s r t h = elim (Bool-cases (s.readable && s.writable)) [
  | inr w ↦ unfold replace_operation in ground (arith, operation_failed-unavailable)
  | inl w ↦
      let arguments = replace_arguments (tokenize text b'/') in
      let chain : bind (acquire_write_lock s) (λ _. replace_with user false arguments) ≡ done r t =
        unfold replace_operation in ground arith in
      let (_, locked, e, h') =
        bind-eq-done (acquire_write_lock s) (λ _. replace_with user false arguments) chain in
      replace_with-Answer user (replace_arguments (tokenize text b'/')) s locked r t h'
]

local_operation_on-Answer :
    (user : Bytes) (tokens : List Bytes) (s : Store) (response : Bytes) (t : Store)
    → local_operation_on user tokens s ≡ done response t
    → Answer s response t
unfolding local_operation_on
local_operation_on-Answer user [] s response t h = cc
local_operation_on-Answer user (x ∷ []) s response t h = cc
local_operation_on-Answer user (name ∷ argument ∷ more) s response t h =
    elim (Bool-cases (str_eq name (codes "WRITE"))) [
      | inl w ↦
          let chain : bind (write_operation user argument false no_operation s) (λ a. done a.0)
              ≡ done response t =
            ground arith in
          let (r, s', e, h') =
            bind-eq-done (write_operation user argument false no_operation s) (λ a. done a.0)
              chain in
          ground (arith, write_operation-Answer user argument no_operation s r s' e)
      | inr w ↦
          let chain : bind (replace_operation user argument false no_operation s) (λ a. done a.0)
              ≡ done response t =
            ground arith in
          let (r, s', e, h') =
            bind-eq-done (replace_operation user argument false no_operation s) (λ a. done a.0)
              chain in
          ground (arith, replace_operation-Answer user argument no_operation s r s' e)
    ]

pub local_operation-Answer :
    (user command : Bytes) (s : Store) (response : Bytes) (t : Store)
    → local_operation user command s ≡ done response t
    → Answer s response t
unfolding local_operation
local_operation-Answer user command s response t h =
    local_operation_on-Answer user (tokenize command b' ') s response t h
