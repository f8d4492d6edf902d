-- ===== src/LineReader/Sockets.antt =====
-- Reading the lines of a socket: where a line ends, the residue, and how much is stored.
use bulletin_board.Base.{
  ℕ, zero, suc, ◌-◌, ◌<◌, ◌≡◌, ◌≢◌, refl, ap, ◌∙◌, Bool, true, false, List, [], ◌∷◌, ◌++◌,
  append_assoc, append-nil, arith, length, map, if◌then◌else◌,
}
use bulletin_board.Text.{Bytes}
use bulletin_board.Text.Lines.{IsLine}
use bulletin_board.LineReader.{
  Arrival, byte, pause, Descriptor, socket, exhausted, line, ended_line, is_terminator,
  skip_terminators, drain_terminators, fill, readline_from_socket,
}

abbrev pub AllTerminators : Bytes → Type 0
AllTerminators [] = Unit
AllTerminators (c ∷ cs) = (is_terminator c ≡ true) × AllTerminators cs

-- A command, what ends it, and whether a pause follows.
pub record Utterance : Type 0 where
  pub command : Bytes
  pub terminator : ℕ
  pub more_terminators : Bytes
  pub pauses : Bool

-- What arrives of it, in front of the rest.
abbrev pub say : Utterance → List Arrival → List Arrival
say u r =
    map byte u.command
    ++ (byte u.terminator ∷ (map byte u.more_terminators ++ (if u.pauses then pause ∷ r else r)))

abbrev pub wire : List Utterance → List Arrival
wire [] = []
wire (u ∷ us) = say u (wire us)

-- A command is a line of one byte at least and `max` at most; it is ended by any run of '\r' and '\n'.
pub record IsSaid (max : ℕ) (u : Utterance) : Type 0 where
  pub is_line : IsLine u.command
  pub nonempty : u.command ≢ []
  pub fits : length u.command < max
  pub ends : is_terminator u.terminator ≡ true
  pub goes_on : AllTerminators u.more_terminators

abbrev pub AllSaid : ℕ → List Utterance → Type 0
AllSaid max [] = Unit
AllSaid max (u ∷ us) = IsSaid max u × AllSaid max us

fill-word :
    (word buf : Bytes) (c : ℕ) (r : List Arrival) (rounds : ℕ) (begin : Bool)
    → IsLine word
    → is_terminator c ≡ true
    → length word < rounds
    → fill rounds begin buf (socket (map byte word ++ (byte c ∷ r)))
      ≡ ended_line (buf ++ word) (socket r)
unfolding fill
fill-word word buf c r zero begin h t lt = absurd (omega arith)
fill-word [] buf c r (suc rounds) begin h t lt = ground (arith, t, append-nil buf)
fill-word (x ∷ word) buf c r (suc rounds) begin h t lt =
    let plain : is_terminator x ≡ false = unfold is_terminator in ground arith in
    ground (
      arith,
      plain,
      fill-word word (buf ++ x ∷ []) c r rounds false h.1 t,
      append_assoc buf (x ∷ []) word,
    )

skip_terminators-run :
    (cs : Bytes) (r : List Arrival)
    → AllTerminators cs
    → skip_terminators (map byte cs ++ r) ≡ skip_terminators r
unfolding skip_terminators
skip_terminators-run [] r h = refl
skip_terminators-run (c ∷ cs) r h = ground (arith, h.0, skip_terminators-run cs r h.1)

-- Where a reader stands between two calls: in front of the next utterance, or behind its first byte,
-- which is then the residue.
pub data Stands (us : List Utterance) : ℕ → Descriptor → Type 0 where
  in_front : Stands us 0 (socket (wire us))
  behind_first : {c : ℕ} {r : List Arrival} → c ≢ 0 → wire us ≡ byte c ∷ r → Stands us c (socket r)

-- The first byte of a command ends the search for terminators, and becomes the residue.
skip_terminators-word :
    (w : Bytes) (r : List Arrival)
    → IsLine w
    → w ≢ []
    → (c : ℕ) × (r' : List Arrival) × (skip_terminators (map byte w ++ r) ≡ (c, r'))
      × (c ≢ 0)
      × (map byte w ++ r ≡ byte c ∷ r')
unfolding skip_terminators is_terminator
skip_terminators-word [] r h ne = absurd (ne refl)
skip_terminators-word (c ∷ w) r h ne = (c, map byte w ++ r, ground arith, h.0.0, refl)

skip_terminators-wire :
    (max : ℕ) (us : List Utterance)
    → AllSaid max us
    → (c : ℕ) × (r : List Arrival) × (skip_terminators (wire us) ≡ (c, r)) × Stands us c (socket r)
unfolding skip_terminators
skip_terminators-wire max [] h = (0, [], refl, in_front)
skip_terminators-wire max (u ∷ us) h =
    let (c, r, e, ne, first) = skip_terminators-word u.command _ h.0.is_line h.0.nonempty in
    (c, r, e, behind_first ne first)

skip_terminators-behind :
    (max : ℕ) (cs : Bytes) (pauses : Bool) (us : List Utterance)
    → AllTerminators cs
    → AllSaid max us
    → (c : ℕ) × (r : List Arrival) × (skip_terminators
          (map byte cs ++ (if pauses then pause ∷ wire us else wire us))
        ≡ (c, r))
      × Stands us c (socket r)
skip_terminators-behind max cs true us h hs = (
  0,
  wire us,
  skip_terminators-run cs (pause ∷ wire us) h ∙ unfold skip_terminators in refl,
  in_front,
)
skip_terminators-behind max cs false us h hs =
    let (c, r, e, stands) = skip_terminators-wire max us hs in
    (c, r, skip_terminators-run cs (wire us) h ∙ e, stands)

-- In front of a residue the call goes on as if its byte were read.
word_read :
    (w : Bytes) (c max : ℕ) (r : List Arrival) (residue : ℕ) (d : Descriptor) (us : List Utterance)
    → IsLine w
    → w ≢ []
    → length w < max
    → is_terminator c ≡ true
    → wire us ≡ map byte w ++ (byte c ∷ r)
    → Stands us residue d
    → readline_from_socket d max residue ≡ ended_line w (socket r)
unfolding readline_from_socket
word_read w c max r _ _ us h ne lt t e in_front =
    ap (λ a. fill max true [] (socket a)) e ∙ fill-word w [] c r max true h t lt
word_read [] c max r _ _ us h ne lt t e (behind_first nz f) = absurd (ne refl)
word_read (x ∷ w) c max r residue _ us h ne lt t e (behind_first {r = r'} nz f) =
    let same : residue ≡ x = cc in
    let tail : r' ≡ map byte w ++ (byte c ∷ r) = cc in
    let full = fill-word w (x ∷ []) c r (max - 1) true h.1 t (omega arith) in ground arith

-- A call in front of a command returns the command, and leaves the reader in front of the next.
pub readline_from_socket-Stands :
    (max residue : ℕ) (d : Descriptor) (u : Utterance) (us : List Utterance)
    → Stands (u ∷ us) residue d
    → AllSaid max (u ∷ us)
    → (c : ℕ) × (r : List Arrival) × (readline_from_socket d max residue
        ≡ record { outcome = line u.command; residue = c; rest = socket r })
      × Stands us c (socket r)
readline_from_socket-Stands max residue d u us at (h, hs) =
    let (c, r, e, stands) =
      skip_terminators-behind max u.more_terminators u.pauses us h.goes_on hs in
    (
      c,
      r,
      word_read u.command u.terminator max _ residue d (u ∷ us) h.is_line h.nonempty h.fits h.ends
            refl at
          ∙ unfold drain_terminators in
            ap (λ q. record { outcome = line u.command; residue = q.0; rest = socket q.1 }) e,
      stands,
    )

-- With no command left a call finds the end.
pub readline_from_socket-end :
    (max residue : ℕ) (d : Descriptor)
    → Stands [] residue d
    → 0 < max
    → (readline_from_socket d max residue).outcome ≡ exhausted
unfolding readline_from_socket
readline_from_socket-end zero residue d at lt = absurd (omega arith)
readline_from_socket-end (suc max) _ _ in_front lt = refl
readline_from_socket-end (suc max) residue _ (behind_first nz e) lt = cc
