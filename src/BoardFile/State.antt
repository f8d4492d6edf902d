-- ===== src/BoardFile/State.antt =====
-- What it means that the file holds a list of lines, and the lock's state around an operation.
use bulletin_board.Base.{
  ℕ, ◌+◌, ◌≤◌, ◌≡◌, Bool, true, false, List, [], ◌∷◌, ◌++◌, append_assoc, arith, length,
  length-append,
}
use bulletin_board.Base.Int.{pos, int_max}
use bulletin_board.Text.{Bytes, print_int}
use bulletin_board.Text.Lines.{
  IsPlain, IsLine, IsLine-append, IsLine-HasNoNul, c_str_lem, print_int-IsLine,
}
use bulletin_board.Lock.{AccessData}
use bulletin_board.Store.{Store, done, acquire_write_lock}
use bulletin_board.BoardFile.{format_line, release_unless}
use bulletin_board.BoardFile.Lines.{encode, AllFit}

-- The file holds exactly these lines, each of which readline returns whole, and is counted right.
pub record Holds (s : Store) (ls : List Bytes) : Type 0 where
  pub encoded : s.content ≡ encode ls
  pub fit : AllFit ls
  pub counted : s.message_number ≡ length ls
  pub readable : s.readable ≡ true
  pub writable : s.writable ≡ true

-- The file can grow by a line and its offsets still be `int`s.
abbrev pub IsSmall : Store → Type 0
IsSmall s = length s.content + 256 ≤ int_max

-- No thread is in the critical region.
abbrev pub IsFree : AccessData → Type 0
IsFree a = (a.num_readers_active ≡ 0) × (a.writer_active ≡ false)

-- The line of a message, without its newline.
abbrev pub entry : ℕ → Bytes → Bytes → Bytes
entry n user message = print_int (pos n) ++ (b'/' ∷ (user ++ (b'/' ∷ message)))

-- The lock after an operation that keeps it or gives it back.
abbrev pub access_after : Bool → AccessData → AccessData
access_after true a = record a { writer_active = true }
access_after false a = a

pub acquire_write_lock-IsFree :
    (s : Store)
    → IsFree s.access_data
    → acquire_write_lock s ≡ done tt (record s { access_data = access_after true s.access_data })
unfolding acquire_write_lock
acquire_write_lock-IsFree s h = ground arith

pub release_unless_held :
    (hold : Bool) (s : Store) (a : AccessData)
    → IsFree a
    → s.access_data ≡ access_after true a
    → release_unless hold s ≡ done tt (record s { access_data = access_after hold a })
unfolding release_unless
release_unless_held true s a h e = ground arith
release_unless_held false s a h e = ground arith

pub entry-IsLine :
    (n : ℕ) (user message : Bytes) → IsLine user → IsLine message → IsLine (entry n user message)
entry-IsLine n user message u m =
    IsLine-append (print_int (pos n)) (b'/' ∷ (user ++ (b'/' ∷ message))) (print_int-IsLine (pos n))
      (slash, IsLine-append user (b'/' ∷ message) u (slash, m))
  where
    slash : IsPlain b'/'
    slash = omega arith

pub format_line-entry :
    (n : ℕ) (user message : Bytes)
    → IsLine user
    → IsLine message
    → format_line (pos n) user message ≡ entry n user message ++ (b'\n' ∷ [])
unfolding format_line
format_line-entry n user message u m =
    rw (c_str_lem user (IsLine-HasNoNul user u), c_str_lem message (IsLine-HasNoNul message m))
      (simp append_assoc)

pub length-entry :
    (n : ℕ) (user message : Bytes)
    → length (entry n user message) ≡ length (print_int (pos n)) + length user + length message + 2
length-entry n user message = omega (
  arith,
  length-append (print_int (pos n)) (b'/' ∷ (user ++ (b'/' ∷ message))),
  length-append user (b'/' ∷ message),
)

-- The lock's state is no part of what the file holds.
pub Holds-access_data :
    (s : Store) (ls : List Bytes) (a : AccessData)
    → Holds s ls
    → Holds (record s { access_data = a }) ls
Holds-access_data s ls a h = record {
  encoded = h.encoded;
  fit = h.fit;
  counted = h.counted;
  readable = h.readable;
  writable = h.writable;
}
