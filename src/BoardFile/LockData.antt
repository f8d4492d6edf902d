-- ===== src/BoardFile/LockData.antt =====
-- Replacing and undoing leave the data of the readers-writer lock alone.
use bulletin_board.Base.{ℕ, ◌≡◌, Option, none, some, [], arith}
use bulletin_board.Base.Int.{ℤ}
use bulletin_board.Text.{Bytes, tokenize}
use bulletin_board.Lock.{AccessData}
use bulletin_board.Store.{bind-eq-done, Store, Result, done, crashes, open_read}
use bulletin_board.Splice.{replace_in_place}
use bulletin_board.BoardFile.{
  Undo, no_operation, undo_write, undo_replace, replace_message, get_message_number_info, line_info,
  optimal_replace_algorithm, replace_measured, replace_unopened, store_content, run_undo,
  second_and_third, replacement_line,
}
use bulletin_board.BoardFile.Loops.{
  Search, found, missing, endless, rounds_for, measure_line, seek_line,
}

-- The call leaves the lock's data alone, if it returns.
abbrev pub KeepsLock : {A : Type 0} → AccessData → Result A → Type 0
KeepsLock {A} a r = (x : A) (t : Store) → r ≡ done x t → t.access_data ≡ a

store_content-KeepsLock :
    (o : Option Bytes) (s : Store) → KeepsLock s.access_data (store_content o s)
unfolding store_content
store_content-KeepsLock none s x t h = cc
store_content-KeepsLock (some c) s x t h = ground arith

replace_unopened-KeepsLock :
    (old_length before : ℕ) (l : Bytes) (s : Store)
    → KeepsLock s.access_data (replace_unopened old_length before l s)
unfolding replace_unopened
replace_unopened-KeepsLock old_length before l s x t h = ground arith

replace_measured-KeepsLock :
    (m : Search (ℕ × ℕ)) (l : Bytes) (s : Store) → KeepsLock s.access_data (replace_measured m l s)
unfolding replace_measured
replace_measured-KeepsLock (found (old_length, before)) l s x t h = ground (
  arith,
  store_content-KeepsLock (replace_in_place s.content before old_length l) s x t,
  replace_unopened-KeepsLock old_length before l s x t,
)
replace_measured-KeepsLock (missing _) l s x t h = cc
replace_measured-KeepsLock endless l s x t h = cc

optimal_replace-KeepsLock :
    (user : Bytes) (n : ℤ) (m : Bytes) (s : Store)
    → KeepsLock s.access_data (optimal_replace_algorithm user n m s)
unfolding optimal_replace_algorithm
optimal_replace-KeepsLock user n m s x t h = ground (
  arith,
  replace_measured-KeepsLock (measure_line (rounds_for s.content) (open_read s) 0 n 0)
      (replacement_line n user m) s x t,
)

pub run_undo-KeepsLock : (u : Undo) (s : Store) → KeepsLock s.access_data (run_undo u s)
unfolding run_undo
run_undo-KeepsLock no_operation s x t h = ground arith
run_undo-KeepsLock (undo_write size) s x t h = ground arith
run_undo-KeepsLock (undo_replace user n m) s x t h = optimal_replace-KeepsLock user n m s x t h

get_message_number_info-KeepsLock :
    (n : ℤ) (s : Store) → KeepsLock s.access_data (get_message_number_info n s)
unfolding get_message_number_info
get_message_number_info-KeepsLock n s x t h =
    info (seek_line (rounds_for s.content) (open_read s) 0 n []) h
  where
    info : (r : Search Bytes) → line_info r s ≡ done x t → t.access_data ≡ s.access_data
    info (found text) e = token (second_and_third (tokenize text b'/')) (unfold line_info in e)
      where
        token :
            (o : Option (Bytes × Bytes))
            → (elim o [ none ↦ crashes | some i ↦ done i s ]) ≡ done x t
            → t.access_data ≡ s.access_data
        token none e = cc
        token (some i) e = ground arith
    info (missing _) e = unfold line_info in cc
    info endless e = unfold line_info in cc

pub replace_message-KeepsLock :
    (user : Bytes) (n : ℤ) (m : Bytes) (s : Store)
    → KeepsLock s.access_data (replace_message user n m s)
unfolding replace_message
replace_message-KeepsLock user n m s x t h =
    let (i, s', e, h') = bind-eq-done (get_message_number_info n s) _ h in
    let (_, s'', e', h'') = bind-eq-done (optimal_replace_algorithm user n m s') _ h' in
    ground (
      arith,
      get_message_number_info-KeepsLock n s i s' e,
      optimal_replace-KeepsLock user n m s' tt s'' e',
    )
