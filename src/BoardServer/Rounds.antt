-- ===== src/BoardServer/Rounds.antt =====
-- The rounds of the loop over the requests of a client.
use bulletin_board.Base.{
  ℕ, zero, suc, ◌+◌, ◌<◌, ◌≤◌, ◌≢◌, inl, inr, List, [], ◌∷◌, ◌++◌, arith, length,
}
use bulletin_board.Text.{Bytes, c_str, codes, socket_message}
use bulletin_board.LineReader.{
  Arrival, Descriptor, socket, line, exhausted, broken, Outcome, readline_from_socket,
}
use bulletin_board.LineReader.Bounds.{readline_from_socket-lt, remaining}
use bulletin_board.Store.{Store, Result, done, hangs, crashes, M, bind, pure, ◌>>=◌}
use bulletin_board.BoardServer.{Reply, goes_on, says_bye, handle_command}
use bulletin_board.BoardServer.Loop.{
  request_max, Client, arrivals_of, receive_request, follow_reply, take_turn, converse,
  serve_client, greeting_text,
}

-- A call that ends: it returns with a board for which `P` holds, or the process goes down.
abbrev pub Ends : {A : Type 0} → (Store → Type 0) → Result A → Type 0
Ends P (done a s) = P s
Ends P hangs = ⊥
Ends P crashes = Unit

pub Ends-bind :
    {A B : Type 0} (P : Store → Type 0) (r : Result A) (f : A → Store → Result B)
    → Ends P r
    → ((a : A) (t : Store) → P t → Ends P (f a t))
    → Ends P (bind r f)
Ends-bind P (done a s) f e h = h a s e
Ends-bind P hangs f e h = absurd e
Ends-bind P crashes f e h = tt

arrivals_of-le : (d : Descriptor) → length (arrivals_of d) ≤ remaining d
arrivals_of-le (socket r) = omega arith
arrivals_of-le _ = omega arith

-- A turn that is not the last takes something from the socket.
receive_request-lt :
    (c : Client)
    → (receive_request c).0 ≢ exhausted
    → length (receive_request c).1.arrivals < length c.arrivals
unfolding receive_request
receive_request-lt c ne =
    let d = (readline_from_socket (socket c.arrivals) request_max c.residue).rest in
    elim (readline_from_socket-lt (socket c.arrivals) request_max c.residue (omega arith)
      (λ e. ground arith)) [
        | inl e ↦ absurd (ne e)
        | inr less ↦ omega (arith, less, arrivals_of-le d)
      ]

module _ (synchronize : Bytes → Bytes → M Bytes) (peers : ℕ) (P : Store → Type 0)
    (commands : (user stale request : Bytes) (s : Store)
      → P s
      → Ends P (handle_command synchronize peers user stale request s)) where
  follow_reply-Ends :
      (next : Bytes → M (List Bytes)) (reply : Reply) (t : Store)
      → ((user : Bytes) → Ends P (next user t))
      → P t
      → Ends P (follow_reply next reply t)
  unfolding follow_reply
  follow_reply-Ends next (goes_on user sent) t h p =
      Ends-bind P (next user t) (λ more. pure (sent ++ more)) (h user) (λ a u q. q)
  follow_reply-Ends next says_bye t h p = p

  command-Ends :
      (stale : Bytes) (next : Client → M (List Bytes)) (c : Client) (s : Store)
      → P s
      → ((user : Bytes) (t : Store) → P t → Ends P (next (record c { user = user }) t))
      → Ends P (
          (handle_command synchronize peers c.user stale (c_str c.memory)
              >>= follow_reply (λ user. next (record c { user = user })))
            s)
  command-Ends stale next c s p h =
      Ends-bind P (handle_command synchronize peers c.user stale (c_str c.memory) s)
        (follow_reply (λ user. next (record c { user = user })))
        (commands c.user stale (c_str c.memory) s p)
        (λ reply t q.
          follow_reply-Ends (λ user. next (record c { user = user })) reply t (λ user. h user t q)
            q)

  take_turn-Ends :
      (stale : Bytes) (next : Client → M (List Bytes)) (q : Outcome × Client) (s : Store)
      → P s
      → (q.0 ≢ exhausted
          → (user : Bytes) (t : Store) → P t
          → Ends P (next (record q.1 { user = user }) t))
      → Ends P (take_turn synchronize peers stale next q s)
  unfolding take_turn
  take_turn-Ends stale next (exhausted, c) s p h = p
  take_turn-Ends stale next (line text, c) s p h =
      command-Ends stale next c s p (h (λ e. ground arith))
  take_turn-Ends stale next (broken, c) s p h =
      command-Ends stale next c s p (h (λ e. ground arith))

  converse-Ends :
      (stale : ℕ → Bytes) (fuel turn : ℕ) (c : Client) (s : Store)
      → length c.arrivals < fuel
      → P s
      → Ends P (converse synchronize peers stale fuel turn c s)
  unfolding converse
  converse-Ends stale zero turn c s lt p = absurd (omega arith)
  converse-Ends stale (suc fuel) turn c s lt p =
      take_turn-Ends (stale turn) (converse synchronize peers stale fuel (turn + 1))
        (receive_request c) s p
        (λ ne user t q.
          let less = receive_request-lt c ne in
          converse-Ends stale fuel (turn + 1) (record (receive_request c).1 { user = user }) t
            (omega arith) q)

  -- Whatever arrives on its socket, and then the end: where each command on a board with `P` ends, with
  -- such a board again or with the process down, the connection ends so too.
  pub serve_client-Ends :
      (stale : ℕ → Bytes) (memory : Bytes) (arrivals : List Arrival) (s : Store)
      → P s
      → Ends P (serve_client synchronize peers stale memory arrivals s)
  unfolding serve_client
  serve_client-Ends stale memory arrivals s p =
      Ends-bind P
        (converse synchronize peers stale (suc (length arrivals)) 0
          (record { arrivals = arrivals; residue = 0; memory = memory; user = codes "nobody" }) s)
        (λ answers. pure (socket_message 0 [] greeting_text ∷ answers))
        (converse-Ends stale (suc (length arrivals)) 0
          (record { arrivals = arrivals; residue = 0; memory = memory; user = codes "nobody" }) s
          (omega arith) p)
        (λ a t q. q)
