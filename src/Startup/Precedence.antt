-- ===== src/Startup/Precedence.antt =====
-- The command line counts more than the configuration file.
use bulletin_board.Base.{
  ℕ, ◌≡◌, refl, ap, ◌∙◌, true, false, Option, some, List, [], ◌∷◌, ◌==◌, if◌then◌else◌, arith, map,
}
use bulletin_board.Base.Int.{ℤ}
use bulletin_board.Text.{Bytes}
use bulletin_board.BoardFile.Lines.{encode, AllFit}
use bulletin_board.Config.{Parameters, loaded, after, read_configuration}
use bulletin_board.Config.Settings.{
  Setting, setting_line, assign_all, AllGood, read_configuration-settings,
}
use bulletin_board.Startup.{
  CommandLine, configuration_file, defaults, apply_option, apply_options, with_operands, start_up,
}

-- The last argument of an option, if it is given, and otherwise a default.
abbrev pub last_given : {A : Type 0} → ℕ → (Bytes → A) → List (ℕ × Bytes) → A → A
last_given c f [] a = a
last_given c f ((d, argument) ∷ options) a =
    last_given c f options (if d == c then f argument else a)

-- The parameters of the file, changed as the options say, each by its last occurrence.
abbrev pub overridden : (Bytes → ℤ) → List (ℕ × Bytes) → Parameters → Parameters
overridden atoi options p = record {
  tmax = last_given b'T' atoi options p.tmax;
  bulletin_board_server_port = last_given b'p' atoi options p.bulletin_board_server_port;
  sync_server_port = last_given b's' atoi options p.sync_server_port;
  bbfile = last_given b'b' (λ s. s) options p.bbfile;
  peers = p.peers;
  is_daemon = last_given b'f' (λ s. false) options p.is_daemon;
  debugging_mode_enabled = last_given b'd' (λ s. true) options p.debugging_mode_enabled;
}

option_overrides :
    (atoi : Bytes → ℤ) (c : ℕ) (argument : Bytes) (p : Parameters)
    → apply_option atoi c argument p ≡ overridden atoi ((c, argument) ∷ []) p
unfolding apply_option
option_overrides atoi c argument p = ground arith

apply_options-overridden :
    (atoi : Bytes → ℤ) (options : List (ℕ × Bytes)) (p : Parameters)
    → apply_options atoi options p ≡ overridden atoi options p
unfolding apply_options
apply_options-overridden atoi [] p = refl
apply_options-overridden atoi ((c, argument) ∷ options) p =
    apply_options-overridden atoi options (apply_option atoi c argument p)
    ∙ ap (overridden atoi options) (option_overrides atoi c argument p)

-- With a configuration file of good settings, a line of less than 255 bytes for each, main
-- returns 1 if neither the file nor the command line names a board file, and else goes on with
-- these parameters: the defaults, changed first by the settings and then by the last occurrence
-- of each option, and the operands behind the peers.
pub start_up-settings :
    (atoi : Bytes → ℤ) (files : Bytes → Option Bytes) (line : CommandLine) (sts : List Setting)
    → files (configuration_file line.options) ≡ some (encode (map setting_line sts))
    → AllGood sts
    → AllFit (map setting_line sts)
    → start_up atoi files line
      ≡ loaded
          (with_operands line.operands (overridden atoi line.options (assign_all sts defaults)))
unfolding start_up
start_up-settings atoi files line sts e good fit =
    ap
      (λ c.
        after (read_configuration c defaults)
          (λ p. loaded (with_operands line.operands (apply_options atoi line.options p))))
      e
    ∙ ap
        (λ r.
          after r (λ p. loaded (with_operands line.operands (apply_options atoi line.options p))))
        (read_configuration-settings sts defaults good fit)
    ∙ ap (λ q. loaded (with_operands line.operands q))
        (apply_options-overridden atoi line.options (assign_all sts defaults))
