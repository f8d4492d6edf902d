-- ===== src/Config/Settings.antt =====
-- Configuration files written setting by setting are read back.
use bulletin_board.Base.{
  ℕ, ◌≤◌, ◌≡◌, ◌≢◌, inr, refl, ap, ◌∙◌, Bool, true, false, some, List, [], ◌∷◌, ◌++◌, arith, map,
}
use bulletin_board.Base.Int.{pos}
use bulletin_board.Text.{Bytes, codes, tokenize, tokens_from, flush, is_whitespace, print_int}
use bulletin_board.Text.Lines.{IsPlain, IsLine, IsLine-append, IsLine-HasNoNul, print_int-IsLine}
use bulletin_board.Text.Tokens.{
  IsWord, IsFreeOf, IsFreeOf-append, tokenize-tokens_from, tokens_from-cons, tokens_from-one,
  print_int-IsWord,
}
use bulletin_board.Text.Numbers.{stoi-print_int}
use bulletin_board.BoardFile.Lines.{encode, AllFit}
use bulletin_board.Config.{
  Parameters, loaded, after, set_parameter, key_and_value, is_blank, apply_line, read_configuration,
}
use bulletin_board.Config.Load.{apply_lines, key_and_value_line, read_configuration-encode}

-- What a line of the file is meant to say.
pub data Setting : Type 0 where
  thmax bbport syncport : ℕ → Setting
  bbfile_is : Bytes → Setting
  peers_are : List Bytes → Setting
  daemon debug : Bool → Setting

-- The names of peers with a blank between.
abbrev pub spaced : List Bytes → Bytes
spaced [] = []
spaced (w ∷ []) = w
spaced (w ∷ v ∷ ws) = w ++ (b' ' ∷ spaced (v ∷ ws))

abbrev pub truth : Bool → Bytes
truth true = codes "true"
truth false = codes "false"

abbrev pub key_of : Setting → Bytes
key_of (thmax n) = codes "THMAX"
key_of (bbport n) = codes "BBPORT"
key_of (syncport n) = codes "SYNCPORT"
key_of (bbfile_is s) = codes "BBFILE"
key_of (peers_are ws) = codes "PEERS"
key_of (daemon b) = codes "DAEMON"
key_of (debug b) = codes "DEBUG"

abbrev pub value_of : Setting → Bytes
value_of (thmax n) = print_int (pos n)
value_of (bbport n) = print_int (pos n)
value_of (syncport n) = print_int (pos n)
value_of (bbfile_is s) = s
value_of (peers_are ws) = spaced ws
value_of (daemon b) = truth b
value_of (debug b) = truth b

abbrev pub setting_line : Setting → Bytes
setting_line st = key_of st ++ (b'=' ∷ value_of st)

-- What it does to the parameters.
abbrev pub assign : Setting → Parameters → Parameters
assign (thmax n) p = record p { tmax = pos n }
assign (bbport n) p = record p { bulletin_board_server_port = pos n }
assign (syncport n) p = record p { sync_server_port = pos n }
assign (bbfile_is s) p = record p { bbfile = s }
assign (peers_are ws) p = record p { peers = p.peers ++ ws }
assign (daemon b) p = record p { is_daemon = b }
assign (debug b) p = record p { debugging_mode_enabled = b }

abbrev pub assign_all : List Setting → Parameters → Parameters
assign_all [] p = p
assign_all (st ∷ sts) p = assign_all sts (assign st p)

abbrev pub AllPeers : List Bytes → Type 0
AllPeers [] = Unit
AllPeers (w ∷ ws) = IsLine w × IsWord b' ' w × IsFreeOf b'=' w × AllPeers ws

-- Numbers fit in an `int`, texts hold no '=' and no terminator, and there is a peer.
abbrev pub IsGood : Setting → Type 0
IsGood (thmax n) = n ≤ 2147483647
IsGood (bbport n) = n ≤ 2147483647
IsGood (syncport n) = n ≤ 2147483647
IsGood (bbfile_is s) = IsLine s × IsWord b'=' s
IsGood (peers_are ws) = (ws ≢ []) × AllPeers ws
IsGood (daemon b) = Unit
IsGood (debug b) = Unit

abbrev pub AllGood : List Setting → Type 0
AllGood [] = Unit
AllGood (st ∷ sts) = IsGood st × AllGood sts

blank : IsPlain b' '
blank = omega arith

spaced-IsLine : (ws : List Bytes) → AllPeers ws → IsLine (spaced ws)
spaced-IsLine [] h = tt
spaced-IsLine (w ∷ []) h = h.0
spaced-IsLine (w ∷ v ∷ ws) h =
    IsLine-append w (b' ' ∷ spaced (v ∷ ws)) h.0 (blank, spaced-IsLine (v ∷ ws) h.3)

spaced-IsFreeOf : (ws : List Bytes) → AllPeers ws → IsFreeOf b'=' (spaced ws)
spaced-IsFreeOf [] h = tt
spaced-IsFreeOf (w ∷ []) h = h.2
spaced-IsFreeOf (w ∷ v ∷ ws) h =
    IsFreeOf-append b'=' w (b' ' ∷ spaced (v ∷ ws)) h.2 (omega arith, spaced-IsFreeOf (v ∷ ws) h.3)

spaced-ne-nil : (ws : List Bytes) → ws ≢ [] → AllPeers ws → spaced ws ≢ []
spaced-ne-nil [] ne h = absurd (ne refl)
spaced-ne-nil (w ∷ []) ne h = h.1.0
spaced-ne-nil ([] ∷ v ∷ ws) ne h = absurd (h.1.0 refl)
spaced-ne-nil ((c ∷ w) ∷ v ∷ ws) ne h = ground arith

tokens_from-spaced : (ws : List Bytes) → AllPeers ws → tokens_from b' ' [] (spaced ws) ≡ ws
tokens_from-spaced [] h = unfold tokens_from flush in refl
tokens_from-spaced (w ∷ []) h = tokens_from-one b' ' w h.1
tokens_from-spaced (w ∷ v ∷ ws) h =
    tokens_from-cons b' ' w (spaced (v ∷ ws)) h.1 ∙ ap (◌∷◌ w) (tokens_from-spaced (v ∷ ws) h.3)

tokenize-spaced : (ws : List Bytes) → AllPeers ws → tokenize (spaced ws) b' ' ≡ ws
tokenize-spaced ws h =
    tokenize-tokens_from (spaced ws) b' ' (IsLine-HasNoNul (spaced ws) (spaced-IsLine ws h))
    ∙ tokens_from-spaced ws h

number-IsWord : (n : ℕ) → IsWord b'=' (print_int (pos n))
number-IsWord n = print_int-IsWord b'=' n (inr (omega arith))

set_parameter-assign :
    (st : Setting) (p : Parameters)
    → IsGood st
    → set_parameter (key_of st) (value_of st) p ≡ loaded (assign st p)
unfolding set_parameter
set_parameter-assign (thmax n) p h = ground (arith, stoi-print_int n h)
set_parameter-assign (bbport n) p h = ground (arith, stoi-print_int n h)
set_parameter-assign (syncport n) p h = ground (arith, stoi-print_int n h)
set_parameter-assign (bbfile_is s) p h = refl
set_parameter-assign (peers_are ws) p h =
    ap (λ t. loaded (record p { peers = p.peers ++ t })) (tokenize-spaced ws h.1)
set_parameter-assign (daemon true) p h = refl
set_parameter-assign (daemon false) p h = refl
set_parameter-assign (debug true) p h = refl
set_parameter-assign (debug false) p h = refl

value-IsLine : (st : Setting) → IsGood st → IsLine (value_of st) × IsWord b'=' (value_of st)
value-IsLine (thmax n) h = (print_int-IsLine (pos n), number-IsWord n)
value-IsLine (bbport n) h = (print_int-IsLine (pos n), number-IsWord n)
value-IsLine (syncport n) h = (print_int-IsLine (pos n), number-IsWord n)
value-IsLine (bbfile_is s) h = h
value-IsLine (peers_are ws) h =
    (spaced-IsLine ws h.1, (spaced-ne-nil ws h.0 h.1, spaced-IsFreeOf ws h.1))
value-IsLine (daemon true) h = (omega arith, (ground arith, omega arith))
value-IsLine (daemon false) h = (omega arith, (ground arith, omega arith))
value-IsLine (debug true) h = (omega arith, (ground arith, omega arith))
value-IsLine (debug false) h = (omega arith, (ground arith, omega arith))

-- The line of a good setting is not skipped, and has two tokens.
pub setting_line-tokens :
    (st : Setting)
    → IsGood st
    → (is_blank (setting_line st) ≡ false)
      × (tokenize (setting_line st) b'=' ≡ key_of st ∷ value_of st ∷ [])
unfolding is_whitespace
setting_line-tokens st h = let (l, w) = value-IsLine st h in line st l w
  where
    line :
        (st : Setting)
        → IsLine (value_of st)
        → IsWord b'=' (value_of st)
        → (is_blank (setting_line st) ≡ false)
          × (tokenize (setting_line st) b'=' ≡ key_of st ∷ value_of st ∷ [])
    line (thmax n) l w =
        key_and_value_line b'T' (codes "HMAX") (print_int (pos n)) refl (omega arith) l
          (ground arith, omega arith) w
    line (bbport n) l w =
        key_and_value_line b'B' (codes "BPORT") (print_int (pos n)) refl (omega arith) l
          (ground arith, omega arith) w
    line (syncport n) l w =
        key_and_value_line b'S' (codes "YNCPORT") (print_int (pos n)) refl (omega arith) l
          (ground arith, omega arith) w
    line (bbfile_is s) l w =
        key_and_value_line b'B' (codes "BFILE") s refl (omega arith) l (ground arith, omega arith) w
    line (peers_are ws) l w =
        key_and_value_line b'P' (codes "EERS") (spaced ws) refl (omega arith) l
          (ground arith, omega arith) w
    line (daemon b) l w =
        key_and_value_line b'D' (codes "AEMON") (truth b) refl (omega arith) l
          (ground arith, omega arith) w
    line (debug b) l w =
        key_and_value_line b'D' (codes "EBUG") (truth b) refl (omega arith) l
          (ground arith, omega arith) w

-- A good setting is applied as it is meant.
apply_line-setting_line :
    (st : Setting) (p : Parameters)
    → IsGood st
    → apply_line (setting_line st) p ≡ loaded (assign st p)
unfolding apply_line key_and_value
apply_line-setting_line st p h =
    let (blank', tokens) = setting_line-tokens st h in
    ground (arith, blank', tokens, set_parameter-assign st p h)

apply_lines-settings :
    (sts : List Setting) (p : Parameters)
    → AllGood sts
    → apply_lines (map setting_line sts) p ≡ loaded (assign_all sts p)
apply_lines-settings [] p h = refl
apply_lines-settings (st ∷ sts) p h =
    ap (λ r. after r (apply_lines (map setting_line sts))) (apply_line-setting_line st p h.0)
    ∙ apply_lines-settings sts (assign st p) h.1

-- A configuration file of good settings, a line of less than 255 bytes for each, is read without
-- failure, and sets the parameters as the settings say, one after the other: the last of a name
-- counts, and the peers of all lines are kept.
pub read_configuration-settings :
    (sts : List Setting) (p : Parameters)
    → AllGood sts
    → AllFit (map setting_line sts)
    → read_configuration (some (encode (map setting_line sts))) p ≡ loaded (assign_all sts p)
read_configuration-settings sts p good fit =
    read_configuration-encode (map setting_line sts) p fit ∙ apply_lines-settings sts p good
