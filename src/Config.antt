-- ===== src/Config.antt =====
-- utilities.cpp: the configuration file.
pub mod Load
pub mod Settings
use bulletin_board.Base.{
  ℕ, zero, suc, Bool, true, false, Option, none, some, List, [], ◌∷◌, ◌++◌, leb, if◌then◌else◌,
  length,
}
use bulletin_board.Base.Int.{ℤ}
use bulletin_board.Text.{Bytes, codes, c_str, tokenize, str_eq, trim, is_true, is_empty, stoi}
use bulletin_board.LineReader.{Descriptor, file, broken, exhausted, line, readline}
use bulletin_board.BoardFile.Loops.{rounds_for, buffer_after}

-- What the file and the command line set.
pub record Parameters : Type 0 where
  pub tmax : ℤ
  pub bulletin_board_server_port : ℤ
  pub sync_server_port : ℤ
  pub bbfile : Bytes
  pub peers : List Bytes
  pub is_daemon : Bool
  pub debugging_mode_enabled : Bool

-- A call returns, never returns, or takes the process down: by an exception of stoi, or by an access
-- out of bounds.
pub data Loaded (A : Type 0) : Type 0 where
  loaded : A → Loaded A
  endless : Loaded A
  crashed : Loaded A

abbrev pub after : {A B : Type 0} → Loaded A → (A → Loaded B) → Loaded B
after (loaded a) f = f a
after endless f = endless
after crashed f = crashed

abbrev pub or_crash : {A : Type 0} → Option A → Loaded A
or_crash none = crashed
or_crash (some a) = loaded a

-- The size of `lineContent`, and the limit that readline is called with.
abbrev pub buffer_size : ℕ
buffer_size = 255

-- The tests on `key`, of which one at most holds.
unfoldable pub set_parameter : Bytes → Bytes → Parameters → Loaded Parameters
unfolding str_eq stoi tokenize is_true
set_parameter key value p =
    if str_eq key (codes "THMAX")
    then after (or_crash (stoi value)) (λ n. loaded (record p { tmax = n }))
    else if str_eq key (codes "BBPORT")
    then after (or_crash (stoi value)) (λ n. loaded (record p { bulletin_board_server_port = n }))
    else if str_eq key (codes "SYNCPORT")
    then after (or_crash (stoi value)) (λ n. loaded (record p { sync_server_port = n }))
    else if str_eq key (codes "BBFILE")
    then loaded (record p { bbfile = value })
    else if str_eq key (codes "PEERS")
    then loaded (record p { peers = p.peers ++ tokenize value b' ' })
    else if str_eq key (codes "DAEMON")
    then loaded (record p { is_daemon = is_true value })
    else if str_eq key (codes "DEBUG")
    then loaded (record p { debugging_mode_enabled = is_true value })
    else loaded p

-- `keyValuePair[0]` and `keyValuePair[1]`
unfoldable pub key_and_value : List Bytes → Loaded (Bytes × Bytes)
key_and_value (key ∷ value ∷ _) = loaded (key, value)
key_and_value _ = crashed

-- `trimmedContent.empty()`
unfoldable pub is_blank : Bytes → Bool
unfolding trim c_str
is_blank text = is_empty (trim (c_str text))

-- One turn of the loop, on the line in the buffer.
unfoldable pub apply_line : Bytes → Parameters → Loaded Parameters
unfolding is_blank tokenize key_and_value set_parameter
apply_line text p =
    if is_blank text
    then loaded p
    else after (key_and_value (tokenize text b'=')) (λ kv. set_parameter kv.0 kv.1 p)

-- The NUL behind a line of 255 bytes is stored outside the buffer.
abbrev pub overflows : Bytes → Bool
overflows text = leb buffer_size (length text)

-- The loop of readConfigurationParametersFromFile; `buffer` is what the last call has left.
unfoldable pub read_parameters : ℕ → Descriptor → Bytes → Parameters → Loaded Parameters
read_parameters zero d buffer p = endless
read_parameters (suc fuel) d buffer p =
    let r = readline d buffer_size in
    elim r.outcome [
      | exhausted ↦ loaded p
      | broken ↦ after (apply_line buffer p) (read_parameters fuel r.rest buffer)
      | line text ↦
          (if overflows text
            then crashed
            else after (apply_line text p) (read_parameters fuel r.rest text))
    ]

-- `readConfigurationParametersFromFile`; `none` for a file that cannot be opened.
unfoldable pub read_configuration : Option Bytes → Parameters → Loaded Parameters
unfolding read_parameters
read_configuration none p = loaded p
read_configuration (some content) p = read_parameters (rounds_for content) (file content) [] p

-- The loop of readKeyFromConfigurationFile. The second token is used only where the first matches.
unfoldable pub value_if : Bytes → List Bytes → Loaded (Option Bytes)
unfolding str_eq
value_if wanted [] = crashed
value_if wanted (key ∷ more) =
    if str_eq key wanted
    then after (key_and_value (key ∷ more)) (λ kv. loaded (some kv.1))
    else loaded none

unfoldable pub look_in_line : Bytes → Bytes → Loaded (Option Bytes)
unfolding is_blank tokenize value_if
look_in_line wanted text =
    if is_blank text then loaded none else value_if wanted (tokenize text b'=')

-- What follows a turn: the loop is left with the value, or goes on.
abbrev pub or_else : Option Bytes → Loaded Bytes → Loaded Bytes
or_else (some value) rest = loaded value
or_else none rest = rest

unfoldable pub find_key : ℕ → Descriptor → Bytes → Bytes → Bytes → Loaded Bytes
find_key zero d buffer wanted default' = endless
find_key (suc fuel) d buffer wanted default' =
    let r = readline d buffer_size in
    let again = find_key fuel r.rest (buffer_after r.outcome buffer) wanted default' in
    elim r.outcome [
      | exhausted ↦ loaded default'
      | broken ↦ after (look_in_line wanted buffer) (λ v. or_else v again)
      | line text ↦
          (if overflows text
            then crashed
            else after (look_in_line wanted text) (λ v. or_else v again))
    ]

-- `readKeyFromConfigurationFile`
unfoldable pub read_key : Bytes → Option Bytes → Bytes → Loaded Bytes
unfolding find_key
read_key wanted none default' = loaded default'
read_key wanted (some content) default' =
    find_key (rounds_for content) (file content) [] wanted default'
