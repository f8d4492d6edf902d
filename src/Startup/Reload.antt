-- ===== src/Startup/Reload.antt =====
-- SIGHUP: the configuration file is read again.
use bulletin_board.Store.{Store}
use bulletin_board.Base.{ℕ, ◌≡◌, Bool, List, [], ◌∷◌, if◌then◌else◌}
use bulletin_board.Base.Int.{pos}
use bulletin_board.Text.{Bytes, str_eq}
use bulletin_board.Config.{Parameters}
use bulletin_board.Config.Settings.{
  Setting, syncport, bbfile_is, debug, key_of, value_of, assign_all,
}
use bulletin_board.Startup.{new_peers}

-- The first value of a key, and otherwise a default.
abbrev pub first_value : Bytes → List Setting → Bytes → Bytes
first_value wanted [] default' = default'
first_value wanted (st ∷ sts) default' =
    if str_eq (key_of st) wanted then value_of st else first_value wanted sts default'

-- The first port of the synchronization server, and the first choice of debugging, likewise.
abbrev pub first_syncport : List Setting → ℕ → ℕ
first_syncport [] n = n
first_syncport (syncport m ∷ sts) n = m
first_syncport (_ ∷ sts) n = first_syncport sts n

abbrev pub first_debug : List Setting → Bool → Bool
first_debug [] b = b
first_debug (debug c ∷ sts) b = c
first_debug (_ ∷ sts) b = first_debug sts b

abbrev pub first_bbfile : List Setting → Bytes → Bytes
first_bbfile [] s = s
first_bbfile (bbfile_is t ∷ sts) s = t
first_bbfile (_ ∷ sts) s = first_bbfile sts s

-- The fields that reconfigureBoardServerGlobalVars takes.
abbrev Agree : Parameters → Parameters → Type 0
Agree p q =
    (p.tmax ≡ q.tmax)
    × (p.bulletin_board_server_port ≡ q.bulletin_board_server_port)
    × (p.peers ≡ q.peers)

-- The parameters after a reload: of a port of the synchronization server, the board's file and the
-- debug messages the first setting counts, of the others the last; the peers are replaced if any are named.
abbrev pub reloaded : List Setting → ℕ → Parameters → Parameters
reloaded sts n p =
    let q = assign_all sts (record p { peers = [] }) in
    record p {
      tmax = q.tmax;
      bulletin_board_server_port = q.bulletin_board_server_port;
      sync_server_port = pos (first_syncport sts n);
      bbfile = first_bbfile sts p.bbfile;
      peers = new_peers q.peers p.peers;
      debugging_mode_enabled = first_debug sts p.debugging_mode_enabled;
    }
