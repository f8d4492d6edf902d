-- ===== src/Tests/Startup.antt =====
-- A start and a reload with a concrete configuration file.
use bulletin_board.Store.{Store}
use bulletin_board.Tests.{board}
use bulletin_board.Startup.Daemon.{Redirected, daemon_descriptors, daemon_descriptors-Redirected}
use bulletin_board.Base.{◌≡◌, refl, true, none, some, List, [], ◌∷◌, arith, map}
use bulletin_board.Base.Int.{pos}
use bulletin_board.Text.{Bytes, codes, print_int}
use bulletin_board.BoardFile.Lines.{encode, AllFit}
use bulletin_board.Config.{loaded}
use bulletin_board.Config.Settings.{
  Setting, thmax, syncport, bbfile_is, peers_are, debug, setting_line, assign_all, AllPeers,
  AllGood,
}
use bulletin_board.Startup.{CommandLine, defaults, with_operands, start_up}
use bulletin_board.Startup.Precedence.{overridden, start_up-settings}
use bulletin_board.Startup.Reload.{reloaded}

abbrev settings : List Setting
settings =
    thmax 5
    ∷ syncport 7
    ∷ syncport 8
    ∷ bbfile_is (codes "board")
    ∷ peers_are (codes "a:1" ∷ codes "b:2" ∷ [])
    ∷ debug true
    ∷ []

settings-AllGood : AllGood settings
settings-AllGood = (
  omega arith,
  (
    omega arith,
    (omega arith, ((omega arith, (ground arith, omega arith)), ((ground arith, peers), (tt, tt)))),
  ),
)
  where
    peers : AllPeers (codes "a:1" ∷ codes "b:2" ∷ [])
    peers = (
      omega arith,
      (ground arith, omega arith),
      omega arith,
      (omega arith, (ground arith, omega arith), omega arith, tt),
    )

settings-AllFit : AllFit (map setting_line settings)
unfolding print_int
settings-AllFit = omega arith

abbrev content : Bytes
content = encode (map setting_line settings)

abbrev command_line : CommandLine
command_line = record {
  options = (b'b', codes "other") ∷ (b'f', []) ∷ [];
  operands = codes "c:3" ∷ [];
}

start_up-settings_example :
    start_up (λ s. pos 0) (λ name. some content) command_line
    ≡ loaded (
        with_operands
          (codes "c:3" ∷ [])
          (overridden (λ s. pos 0) command_line.options (assign_all settings defaults)))
start_up-settings_example =
    start_up-settings (λ s. pos 0) (λ name. some content) command_line settings refl
      settings-AllGood settings-AllFit

-- The board's file is an empty one, whatever its name.
abbrev empty_board : Bytes → Store
empty_board name = record board { content = []; message_number = 5 }

-- The first port of the file counts for a reload, and the last for a start.
ports :
    ((reloaded settings 10000 defaults).sync_server_port ≡ pos 7)
    × ((assign_all settings defaults).sync_server_port ≡ pos 8)
ports = (refl, refl)

-- A daemon that inherits four descriptors, the third of them closed, and has a terminal.
daemon_descriptors-Redirected_example : Redirected (
    daemon_descriptors true 1024
      (some (codes "tty") ∷ some (codes "tty") ∷ none ∷ some (codes "pipe") ∷ []))
daemon_descriptors-Redirected_example =
    daemon_descriptors-Redirected true 1024
      (some (codes "tty") ∷ some (codes "tty") ∷ none ∷ some (codes "pipe") ∷ []) (omega arith)
