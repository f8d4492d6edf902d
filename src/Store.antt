-- ===== src/Store.antt =====
-- The globals of file-operations.cpp with the file that they name, and how a call on them ends.
use bulletin_board.Base.{◌≡◌, refl, ℕ, Bool, if◌then◌else◌}
use bulletin_board.Text.{Bytes}
use bulletin_board.LineReader.{Descriptor, file, bad}
use bulletin_board.Lock.{AccessData, announce_writer, writer_must_wait, enter_writer, leave_writer}

-- `bulletinBoardFile` stands for the bytes of the file that it names, with what access() grants the
-- process; `message_number` and `concurrencyManagementData` are the globals of these names.
pub record Store : Type 0 where
  pub content : Bytes
  pub readable : Bool
  pub writable : Bool
  pub message_number : ℕ
  pub access_data : AccessData

-- A call returns, never returns (an endless loop, or a wait that no other thread ends), or takes
-- the process down (an uncaught exception, a failed assert, an access out of bounds).
pub data Result (A : Type 0) : Type 0 where
  done : A → Store → Result A
  hangs : Result A
  crashes : Result A

abbrev pub M : Type 0 → Type 0
M A = Store → Result A

abbrev pub pure : {A : Type 0} → A → M A
pure a s = done a s

abbrev pub hang : {A : Type 0} → M A
hang s = hangs

abbrev pub crash : {A : Type 0} → M A
crash s = crashes

-- What follows a call.
abbrev pub bind : {A B : Type 0} → Result A → (A → Store → Result B) → Result B
bind (done a s) f = f a s
bind hangs f = hangs
bind crashes f = crashes

infixl 5 ◌>>=◌ ◌>>◌
abbrev pub ◌>>=◌ : {A B : Type 0} → M A → (A → M B) → M B
◌>>=◌ m f s = bind (m s) f

abbrev pub ◌>>◌ : {B : Type 0} → M (Unit {0}) → M B → M B
m >> k = m >>= λ _. k

abbrev pub get : M Store
get s = done s s

abbrev pub modify : (Store → Store) → M (Unit {0})
modify f s = done tt (f s)

-- `open(bulletinBoardFile, O_RDONLY)`
abbrev pub open_read : Store → Descriptor
open_read s = if s.readable then file s.content else bad

-- `acquireWriteLock`, for a thread that no other thread wakes: it waits for good if the lock is
-- taken. `Lock.Threads` has the interleaving.
unfoldable pub acquire_write_lock : M (Unit {0})
unfolding announce_writer writer_must_wait enter_writer
acquire_write_lock s =
    let announced = announce_writer s.access_data in
    if writer_must_wait announced
    then hangs
    else done tt (record s { access_data = enter_writer announced })

unfoldable pub release_write_lock : M (Unit {0})
unfolding leave_writer
release_write_lock s = done tt (record s { access_data = leave_writer s.access_data })

-- What a call that returned was made of.
pub bind-eq-done :
    {A B : Type 0} (m : Result A) (f : A → Store → Result B) {y : B} {t : Store}
    → bind m f ≡ done y t
    → (x : A) × (s : Store) × (m ≡ done x s) × (f x s ≡ done y t)
bind-eq-done (done x s) f h = (x, s, refl, h)
bind-eq-done hangs f h = cc
bind-eq-done crashes f h = cc
