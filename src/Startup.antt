-- ===== src/Startup.antt =====
-- main.cpp: the parameters that the server starts with, and those that SIGHUP sets.
pub mod Precedence
pub mod Daemon
pub mod Reload
use bulletin_board.Base.{
  ℕ, Bool, true, false, Option, none, some, List, [], ◌∷◌, ◌++◌, ◌==◌, if◌then◌else◌,
}
use bulletin_board.Base.Int.{ℤ, pos}
use bulletin_board.Text.{Bytes, codes, is_empty, is_true, stoi, print_int}
use bulletin_board.Store.{Store, Result, done, hangs, crashes}
use bulletin_board.BoardFile.{set_initial_message_number}
use bulletin_board.Config.{
  Parameters, Loaded, loaded, endless, crashed, after, or_crash, read_configuration, read_key,
}

-- What getopt returns for "b:T:p:s:fdc:", an option with its argument after the other, and the
-- operands that are left.
pub record CommandLine : Type 0 where
  pub options : List (ℕ × Bytes)
  pub operands : List Bytes

-- `getConfigurationFileParameterFromTerminal`
unfoldable pub last_configuration_file : List (ℕ × Bytes) → Bytes → Bytes
last_configuration_file [] file = file
last_configuration_file ((c, argument) ∷ options) file =
    last_configuration_file options (if c == b'c' then argument else file)

-- `configurationFile`, with its default
unfoldable pub configuration_file : List (ℕ × Bytes) → Bytes
unfolding last_configuration_file
configuration_file options =
    let file = last_configuration_file options [] in
    if is_empty file then codes "./bbserv.conf" else file

abbrev pub defaults : Parameters
defaults = record {
  tmax = pos 20;
  bulletin_board_server_port = pos 9000;
  sync_server_port = pos 10000;
  bbfile = [];
  peers = [];
  is_daemon = true;
  debugging_mode_enabled = false;
}

-- The tests on one option; `atoi` is the C library's.
unfoldable pub apply_option : (Bytes → ℤ) → ℕ → Bytes → Parameters → Parameters
apply_option atoi c argument p =
    if c == b'b'
    then record p { bbfile = argument }
    else if c == b'T'
    then record p { tmax = atoi argument }
    else if c == b'p'
    then record p { bulletin_board_server_port = atoi argument }
    else if c == b's'
    then record p { sync_server_port = atoi argument }
    else if c == b'f'
    then record p { is_daemon = false }
    else if c == b'd'
    then record p { debugging_mode_enabled = true }
    else p

unfoldable pub apply_options : (Bytes → ℤ) → List (ℕ × Bytes) → Parameters → Parameters
unfolding apply_option
apply_options atoi [] p = p
apply_options atoi ((c, argument) ∷ options) p =
    apply_options atoi options (apply_option atoi c argument p)

-- Behind the options: `none` for `return 1` with no bbfile, and otherwise the parameters with the
-- peers of the operands.
unfoldable pub with_operands : List Bytes → Parameters → Option Parameters
with_operands operands p =
    if is_empty p.bbfile then none else some (record p { peers = p.peers ++ operands })

-- `main`, up to the start of the servers; `files` is what the names of files stand for.
unfoldable pub start_up :
    (Bytes → ℤ) → (Bytes → Option Bytes) → CommandLine → Loaded (Option Parameters)
unfolding configuration_file read_configuration apply_options with_operands
start_up atoi files line =
    after (read_configuration (files (configuration_file line.options)) defaults)
      (λ p. loaded (with_operands line.operands (apply_options atoi line.options p)))

-- `to_string(bool)`
abbrev pub print_bool : Bool → Bytes
print_bool true = codes "1"
print_bool false = codes "0"

-- `peersList = newPeersList`, unless that is empty
abbrev pub new_peers : List Bytes → List Bytes → List Bytes
new_peers [] old = old
new_peers (peer ∷ more) old = peer ∷ more

-- `reconfigureBoardServerGlobalVars`
unfoldable pub reconfigure_board_server : Option Bytes → Parameters → Loaded Parameters
unfolding read_configuration
reconfigure_board_server content p =
    after (read_configuration content (record p { peers = [] })) (λ q. loaded (record p {
      tmax = q.tmax;
      bulletin_board_server_port = q.bulletin_board_server_port;
      peers = new_peers q.peers p.peers;
    }))

-- `reconfigureSyncServerPort`
unfoldable pub reconfigure_sync_server : Option Bytes → Parameters → Loaded Parameters
unfolding read_key stoi print_int
reconfigure_sync_server content p =
    after (read_key (codes "SYNCPORT") content (print_int p.sync_server_port))
      (λ value. after (or_crash (stoi value)) (λ n. loaded (record p { sync_server_port = n })))

-- `setBulletinBoardFile`: the number of messages in the file, which is counted again.
abbrev pub counted_messages : Result (Unit {0}) → Loaded ℕ
counted_messages (done u s) = loaded s.message_number
counted_messages hangs = endless
counted_messages crashes = crashed

unfoldable pub set_bulletin_board_file : (Bytes → Store) → Bytes → Loaded ℕ
unfolding set_initial_message_number
set_bulletin_board_file boards name = counted_messages (set_initial_message_number (boards name))

abbrev pub with_messages : ℕ → Parameters → Loaded (ℕ × Parameters)
with_messages messages p = loaded (messages, p)

-- `super_sighup_handler`, between the end of the threads and the start of new ones; `boards` is what
-- the names of board files stand for. The result is the new `message_number` with the parameters.
unfoldable pub reconfigure : (Bytes → Store) → Option Bytes → Parameters → Loaded (ℕ × Parameters)
unfolding read_key is_true set_bulletin_board_file reconfigure_board_server reconfigure_sync_server
reconfigure boards content p =
    after (read_key (codes "DEBUG") content (print_bool p.debugging_mode_enabled)) (λ debug.
      after (read_key (codes "BBFILE") content p.bbfile) (λ file.
        after (set_bulletin_board_file boards file) (λ messages.
          after
            (reconfigure_board_server content
              (record p { debugging_mode_enabled = is_true debug; bbfile = file }))
            (λ q. after (reconfigure_sync_server content q) (with_messages messages)))))
