-- ===== src/Tests/Rounds.antt =====
-- A connection to a server with peers whose board has no messages: it ends, whatever arrives.
use bulletin_board.Base.{
  ◌≡◌, refl, Bool, true, false, ◌||◌, not, if◌then◌else◌, Option, none, some, List, [], ◌∷◌,
  replicate, arith,
}
use bulletin_board.Base.Int.{ℤ, pos, negsuc}
use bulletin_board.Text.{Bytes, codes, str_eq, tokenize, is_number, stoi}
use bulletin_board.LineReader.{byte, fault}
use bulletin_board.Store.{Store, Result, done, M, pure}
use bulletin_board.BoardFile.{
  has_bad_format, check_number, replace_arguments, is_unknown, are_replace_arguments_valid,
}
use bulletin_board.BoardFile.Reader.{read_message_from_file}
use bulletin_board.BoardServer.{
  operate, change_command, dispatch_command, handle_command, read_number, read_command,
}
use bulletin_board.BoardServer.Loop.{serve_client}
use bulletin_board.BoardServer.Rounds.{Ends, Ends-bind, serve_client-Ends}
use bulletin_board.Tests.{board}

abbrev HasNone : Store → Type 0
HasNone s = s.message_number ≡ 0

-- A transaction that has failed.
abbrev fails : Bytes → Bytes → M Bytes
fails user request = pure []

Ends-if :
    {A : Type 0} (b : Bool) (x y : M A) (s : Store)
    → Ends HasNone (x s)
    → Ends HasNone (y s)
    → Ends HasNone ((if b then x else y) s)
Ends-if true x y s p q = p
Ends-if false x y s p q = q

Ends-done :
    {A : Type 0} (b : Bool) (x : A) (y : Result A) (s : Store)
    → HasNone s
    → Ends HasNone y
    → Ends HasNone (if b then done x s else y)
Ends-done true x y s p q = p
Ends-done false x y s p q = q

unknown : (n : ℤ) (s : Store) → HasNone s → is_unknown n s.message_number ≡ true
unfolding is_unknown
unknown (pos n) s p = ground arith
unknown (negsuc n) s p = refl

check_number-Ends :
    (n : Option (ℤ × Bytes)) (s : Store) → HasNone s → Ends HasNone (check_number n s)
unfolding check_number
check_number-Ends none s p = tt
check_number-Ends (some (n, text)) s p = rw (unknown n s p) p

valid-Ends :
    (text : Bytes) (s : Store) → HasNone s → Ends HasNone (are_replace_arguments_valid text s)
unfolding are_replace_arguments_valid
valid-Ends text s p =
    Ends-done (has_bad_format (tokenize text b'/') text) _ _ s p
      (check_number-Ends (replace_arguments (tokenize text b'/')) s p)

operate-Ends :
    (user request name argument : Bytes) (s : Store)
    → HasNone s
    → Ends HasNone (operate fails 1 user request name argument s)
unfolding operate
operate-Ends user request name argument s p = p

change_command-Ends :
    (user request name argument : Bytes) (s : Store)
    → HasNone s
    → Ends HasNone (change_command fails 1 user request name argument s)
unfolding change_command
change_command-Ends user request name argument s p =
    Ends-if (str_eq name (codes "REPLACE")) _ _ s
      (Ends-bind HasNone (are_replace_arguments_valid argument s) _ (valid-Ends argument s p)
        (λ a t q. Ends-if (not a.0) _ _ t q (operate-Ends user request name argument t q)))
      (operate-Ends user request name argument s p)

read_number-Ends :
    (user stale : Bytes) (n : Option ℤ) (s : Store)
    → HasNone s
    → Ends HasNone (read_number user stale n s)
unfolding read_number read_message_from_file
read_number-Ends user stale none s p = tt
read_number-Ends user stale (some n) s p = rw (unknown n s p) p

read_command-Ends :
    (user stale number : Bytes) (s : Store)
    → HasNone s
    → Ends HasNone (read_command user stale number s)
unfolding read_command
read_command-Ends user stale number s p =
    Ends-if (not (is_number number)) _ _ s p (read_number-Ends user stale (stoi number) s p)

dispatch_command-Ends :
    (user stale request : Bytes) (tokens : List Bytes) (s : Store)
    → HasNone s
    → Ends HasNone (dispatch_command fails 1 user stale request tokens s)
unfolding dispatch_command
dispatch_command-Ends user stale request [] s p = p
dispatch_command-Ends user stale request (name ∷ []) s p = p
dispatch_command-Ends user stale request (name ∷ argument ∷ []) s p =
    Ends-if (str_eq name (codes "QUIT")) _ _ s p (
      Ends-if (str_eq name (codes "USER")) _ _ s p (
        Ends-if (str_eq name (codes "READ")) _ _ s (read_command-Ends user stale argument s p) (
          Ends-if (str_eq name (codes "WRITE") || str_eq name (codes "REPLACE")) _ _ s
            (change_command-Ends user request name argument s p) p)))
dispatch_command-Ends user stale request (_ ∷ _ ∷ _ ∷ _) s p = p

handle_command-Ends :
    (user stale request : Bytes) (s : Store)
    → HasNone s
    → Ends HasNone (handle_command fails 1 user stale request s)
unfolding handle_command
handle_command-Ends user stale request s p =
    dispatch_command-Ends user stale request (tokenize request b' ') s p

-- A WRITE, then a read that fails in the middle of a command.
serve_client-Ends_example : Ends HasNone (
    serve_client fails 1
      (λ k. [])
      (replicate 256 b'?')
      (byte b'W' ∷ byte b' ' ∷ byte b'a' ∷ byte b'\n' ∷ byte b'U' ∷ fault ∷ byte b'x' ∷ [])
      (record board { content = []; message_number = 0 }))
serve_client-Ends_example =
    serve_client-Ends fails 1 HasNone handle_command-Ends (λ k. []) (replicate 256 b'?')
      (byte b'W' ∷ byte b' ' ∷ byte b'a' ∷ byte b'\n' ∷ byte b'U' ∷ fault ∷ byte b'x' ∷ [])
      (record board { content = []; message_number = 0 }) refl
