-- ===== src/BoardServer/Connections.antt =====
-- The commands of a connection are carried out one after the other, however they arrive.
use bulletin_board.Base.{
  ℕ, zero, suc, ◌+◌, ◌≤◌, ◌<◌, ◌≡◌, refl, ap, ◌∙◌, List, [], ◌∷◌, ◌++◌, arith, length, map,
  if◌then◌else◌, length-append,
}
use bulletin_board.Text.{Bytes, codes, c_str, socket_message}
use bulletin_board.Text.Lines.{IsLine-HasNoNul, HasNoNul}
use bulletin_board.LineReader.{Arrival, byte, pause, socket, line, exhausted, Outcome}
use bulletin_board.LineReader.Sockets.{
  Utterance, wire, AllSaid, Stands, in_front, readline_from_socket-Stands, readline_from_socket-end,
}
use bulletin_board.Store.{Store, Result, M, pure, ◌>>=◌, bind, done, hangs, crashes}
use bulletin_board.BoardServer.{Reply, goes_on, says_bye, handle_command}
use bulletin_board.BoardServer.Loop.{
  request_max, greeting_text, store_bytes, request_after, Client, arrivals_of, receive_request, bye,
  follow_reply, take_turn, converse, serve_client,
}

-- The commands one by one, with no sockets: each has the name that the commands before have set, and
-- QUIT ends them.
abbrev pub obey :
    (Bytes → Bytes → M Bytes) → ℕ → (ℕ → Bytes) → ℕ → Bytes → List Bytes → M (List Bytes)
obey synchronize peers stale turn user [] = pure (bye ∷ [])
obey synchronize peers stale turn user (command ∷ commands) =
    handle_command synchronize peers user (stale turn) command
    >>= follow_reply (λ name. obey synchronize peers stale (turn + 1) name commands)

-- A stored line is read back, whatever the buffer held.
c_str-store_bytes :
    (text memory : Bytes)
    → HasNoNul text
    → length text < length memory
    → c_str (store_bytes (text ++ (0 ∷ [])) memory) ≡ text
unfolding c_str store_bytes
c_str-store_bytes [] [] h lt = absurd (omega arith)
c_str-store_bytes [] (m ∷ memory) h lt = refl
c_str-store_bytes (x ∷ text) [] h lt = absurd (omega arith)
c_str-store_bytes (x ∷ text) (m ∷ memory) h lt = ground (arith, c_str-store_bytes text memory h.1)

length-store_bytes : (xs memory : Bytes) → length (store_bytes xs memory) ≡ length memory
unfolding store_bytes
length-store_bytes [] memory = refl
length-store_bytes (x ∷ xs) [] = refl
length-store_bytes (x ∷ xs) (m ∷ memory) = ground (arith, length-store_bytes xs memory)

pub bind-ap :
    {A B : Type 0} (r : Result A) (f g : A → Store → Result B)
    → ((a : A) (s : Store) → f a s ≡ g a s)
    → bind r f ≡ bind r g
bind-ap (done a s) f g h = h a s
bind-ap hangs f g h = refl
bind-ap crashes f g h = refl

pub follow_reply-ap :
    (f g : Bytes → M (List Bytes)) (reply : Reply) (s : Store)
    → ((user : Bytes) (t : Store) → f user t ≡ g user t)
    → follow_reply f reply s ≡ follow_reply g reply s
unfolding follow_reply
follow_reply-ap f g (goes_on user sent) s h =
    ap (λ r. bind r (λ more. pure (sent ++ more))) (h user s)
follow_reply-ap f g says_bye s h = refl

-- What the loop has when a command has been read.
abbrev heard : Client → Utterance → ℕ → List Arrival → Client
heard c u residue r = record c {
  arrivals = r;
  residue = residue;
  memory = store_bytes (u.command ++ (0 ∷ [])) c.memory;
}

receive_request-Stands :
    (u : Utterance) (us : List Utterance) (c : Client)
    → AllSaid request_max (u ∷ us)
    → Stands (u ∷ us) c.residue (socket c.arrivals)
    → (residue : ℕ) × (r : List Arrival) × (receive_request c
        ≡ (line u.command, heard c u residue r))
      × Stands us residue (socket r)
unfolding receive_request request_after
receive_request-Stands u us c h at =
    let (residue, r, e, stands) =
      readline_from_socket-Stands request_max c.residue (socket c.arrivals) u us at h in
    (
      residue,
      r,
      ap
          (λ l. (
            l.outcome,
            record c {
              arrivals = arrivals_of l.rest;
              residue = l.residue;
              memory = request_after l.outcome c.residue c.arrivals c.memory;
            },
          ))
          e,
      stands,
    )

receive_request-end :
    (c : Client) → Stands [] c.residue (socket c.arrivals) → (receive_request c).0 ≡ exhausted
unfolding receive_request
receive_request-end c at =
    readline_from_socket-end request_max c.residue (socket c.arrivals) at (omega arith)

take_turn-exhausted :
    (synchronize : Bytes → Bytes → M Bytes) (peers : ℕ) (stale : Bytes)
    (next : Client → M (List Bytes)) (q : Outcome × Client) (s : Store)
    → q.0 ≡ exhausted
    → take_turn synchronize peers stale next q s ≡ done (bye ∷ []) s
unfolding take_turn
take_turn-exhausted synchronize peers stale next (exhausted, c) s e = refl
take_turn-exhausted synchronize peers stale next (_, c) s e = cc

take_turn-line :
    (synchronize : Bytes → Bytes → M Bytes) (peers : ℕ) (stale : Bytes)
    (next : Client → M (List Bytes)) (c : Client) (text : Bytes) (s : Store)
    (after' : Bytes → M (List Bytes))
    → c_str c.memory ≡ text
    → ((user : Bytes) (t : Store) → next (record c { user = user }) t ≡ after' user t)
    → take_turn synchronize peers stale next (line text, c) s
      ≡ (handle_command synchronize peers c.user stale text >>= follow_reply after') s
unfolding take_turn
take_turn-line synchronize peers stale next c text s after' e h =
    ap
      (λ x.
        bind (handle_command synchronize peers c.user stale x s)
          (follow_reply (λ user. next (record c { user = user }))))
      e
    ∙ bind-ap (handle_command synchronize peers c.user stale text s)
        (follow_reply (λ user. next (record c { user = user }))) (follow_reply after')
        (λ reply t. follow_reply-ap (λ user. next (record c { user = user })) after' reply t h)

length-le-wire : (us : List Utterance) → length us ≤ length (wire us)
length-le-wire [] = omega arith
length-le-wire (u ∷ us) =
    let rest = if u.pauses then pause ∷ wire us else wire us in
    let longer : length (wire us) ≤ length rest = ground arith in
    omega (
      arith,
      longer,
      length-le-wire us,
      length-append (map byte u.command)
          (byte u.terminator ∷ (map byte u.more_terminators ++ rest)),
      length-append (map byte u.more_terminators) rest,
    )

module _ (synchronize : Bytes → Bytes → M Bytes) (peers : ℕ) (stale : ℕ → Bytes) where
  converse-obey :
      (us : List Utterance) (fuel turn : ℕ) (c : Client) (s : Store)
      → AllSaid request_max us
      → Stands us c.residue (socket c.arrivals)
      → length c.memory ≡ 256
      → length us < fuel
      → converse synchronize peers stale fuel turn c s
        ≡ obey synchronize peers stale turn c.user (map (λ u. u.command) us) s
  unfolding converse
  converse-obey us zero turn c s h at m lt = absurd (omega arith)
  converse-obey [] (suc fuel) turn c s h at m lt =
      take_turn-exhausted synchronize peers (stale turn)
        (converse synchronize peers stale fuel (turn + 1)) (receive_request c) s
        (receive_request-end c at)
  converse-obey (u ∷ us) (suc fuel) turn c s h at m lt =
      let (residue, r, e, stands) = receive_request-Stands u us c h at in
      let text =
        c_str-store_bytes u.command c.memory (IsLine-HasNoNul u.command h.0.is_line)
          (omega (arith, h.0.fits, m)) in
      let kept = length-store_bytes (u.command ++ (0 ∷ [])) c.memory in
      ap
        (λ q.
          take_turn synchronize peers (stale turn)
            (converse synchronize peers stale fuel (turn + 1)) q s)
        e
      ∙ take_turn-line synchronize peers (stale turn)
          (converse synchronize peers stale fuel (turn + 1)) (heard c u residue r) u.command s
          (λ user. obey synchronize peers stale (turn + 1) user (map (λ v. v.command) us)) text
          (λ user t.
            converse-obey us fuel (turn + 1) (record (heard c u residue r) { user = user }) t h.1
              stands (kept ∙ m) (omega arith))

  -- Where the commands arrive at once or with pauses between them, each ended by any run
  -- of '\r' and '\n' without a pause inside, and then the end of the connection: the server sends
  -- the greeting and the answers to the commands, one by one and in order, each command a line of
  -- 1 to 254 bytes.
  pub serve_client-obey :
      (us : List Utterance) (memory : Bytes) (s : Store)
      → AllSaid request_max us
      → length memory ≡ 256
      → serve_client synchronize peers stale memory (wire us) s
        ≡ (obey synchronize peers stale 0 (codes "nobody") (map (λ u. u.command) us) >>= λ answers.
              pure (socket_message 0 [] greeting_text ∷ answers))
            s
  unfolding serve_client
  serve_client-obey us memory s h m =
      ap (λ r. bind r (λ answers. pure (socket_message 0 [] greeting_text ∷ answers)))
        (converse-obey us (suc (length (wire us))) 0 _ s h in_front m
          (omega (arith, length-le-wire us)))
