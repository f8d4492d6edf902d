-- ===== src/LineReader.antt =====
-- tcp-utils.cpp: recv_nonblock and readlineFromSocket, and utilities.cpp's `readline`, over what
-- the descriptor's system calls answer.
pub mod Files
pub mod Sockets
pub mod Bounds
use bulletin_board.Base.{
  ◌≡◌, refl, ℕ, zero, suc, ◌-◌, Bool, true, false, ◌||◌, List, [], ◌∷◌, ◌++◌, ◌==◌, if◌then◌else◌,
}
use bulletin_board.Text.{Bytes}

-- What comes in on a socket, in order: a byte, a pause in which nothing is waiting, or an error.
pub data Arrival : Type 0 where
  byte : ℕ → Arrival
  pause : Arrival
  fault : Arrival

-- A file from its read position on, a socket with all that will arrive, or the -1 of a failed open.
pub data Descriptor : Type 0 where
  file : Bytes → Descriptor
  socket : List Arrival → Descriptor
  bad : Descriptor

-- The answer of read(fd, &c, 1).
pub data ReadResult : Type 0 where
  got : ℕ → ReadResult
  eof : ReadResult
  error : ReadResult

-- read() on a socket waits through a pause.
read_arrival : List Arrival → ReadResult × List Arrival
read_arrival [] = (eof, [])
read_arrival (byte c ∷ r) = (got c, r)
read_arrival (pause ∷ r) = read_arrival r
read_arrival (fault ∷ r) = (error, r)

unfoldable pub read_byte : Descriptor → ReadResult × Descriptor
unfolding read_arrival
read_byte (file []) = (eof, file [])
read_byte (file (c ∷ s)) = (got c, file s)
read_byte (socket r) = let (what, r') = read_arrival r in (what, socket r')
read_byte bad = (error, bad)

-- The answers of poll(): nothing in time, an error, or ready.
pub data Polled : Type 0 where
  timeout : Polled
  poll_error : Polled
  ready : Polled

-- The results of recv_nonblock: recv_nodata, -1, or the bytes received; none of them means closed.
pub data Receipt : Type 0 where
  no_data : Receipt
  failed : Receipt
  received : Bytes → Receipt

-- `recv_nonblock`, from the answer of poll() and that of recv()
unfoldable pub recv_nonblock : Polled → Receipt → Receipt
recv_nonblock timeout answer = no_data
recv_nonblock poll_error answer = failed
recv_nonblock ready answer = answer

-- What poll() with no waiting and recv() of one byte answer on a socket.
poll_socket : List Arrival → Polled
poll_socket (pause ∷ r) = timeout
poll_socket _ = ready

recv_socket : List Arrival → Receipt
recv_socket (byte c ∷ r) = received (c ∷ [])
recv_socket (fault ∷ r) = failed
recv_socket _ = received []

unfoldable pub is_terminator : ℕ → Bool
is_terminator c = c == b'\r' || c == b'\n'

-- The do-while loop behind a line's end: the residue, and what is left to read. What recv_nonblock
-- answers at each arrival decides; a pause has passed when the next call is made.
unfoldable pub skip_terminators : List Arrival → ℕ × List Arrival
unfolding is_terminator poll_socket recv_socket recv_nonblock
skip_terminators [] = (0, [])
skip_terminators (a ∷ r) =
    let again = skip_terminators r in
    elim (recv_nonblock (poll_socket (a ∷ r)) (recv_socket (a ∷ r))) [
      | received s ↦ elim s [ [] ↦ (0, r) | c ∷ _ ↦ if is_terminator c then again else (c, r) ]
      | _ ↦ (0, r)
    ]

-- The same loop on any descriptor. On a file poll() answers ready and recv() fails.
unfoldable pub drain_terminators : Descriptor → ℕ × Descriptor
unfolding skip_terminators
drain_terminators (socket r) = let (residue, r') = skip_terminators r in (residue, socket r')
drain_terminators d = (0, d)

-- How a call ends: -1, recv_nodata, or a line with the bytes stored in front of the NUL.
pub data Outcome : Type 0 where
  broken : Outcome
  exhausted : Outcome
  line : Bytes → Outcome

pub record ReadLine : Type 0 where
  pub outcome : Outcome
  pub residue : ℕ
  pub rest : Descriptor

abbrev pub ended_line : Bytes → Descriptor → ReadLine
ended_line buf d =
    let (residue, d') = drain_terminators d in
    record { outcome = line buf; residue = residue; rest = d' }

-- The `for` loop, `rounds` being `max - i`; `begin` is the source's flag.
unfoldable pub fill : ℕ → Bool → Bytes → Descriptor → ReadLine
unfolding read_byte is_terminator drain_terminators
fill zero begin buf d = record { outcome = line buf; residue = 0; rest = d }
fill (suc rounds) begin buf d =
    let d' = (read_byte d).1 in
    elim (read_byte d).0 [
      | error ↦ record { outcome = broken; residue = 0; rest = d' }
      | eof ↦
          (if begin
            then record { outcome = exhausted; residue = 0; rest = d' }
            else ended_line buf d')
      | got c ↦ elim (is_terminator c) [
        | true ↦ ended_line buf d'
        | false ↦ fill rounds false (buf ++ c ∷ []) d'
      ]
    ]

-- `readlineFromSocket(fd, buf, max, residue)`; no residue is '\0'
unfoldable pub readline_from_socket : Descriptor → ℕ → ℕ → ReadLine
unfolding fill
readline_from_socket d max residue =
    if residue == 0 then fill max true [] d else fill (max - 1) true (residue ∷ []) d

-- `readline(fd, buf, max)`: the residue is a static that stays '\0', since no file sets it.
unfoldable pub readline : Descriptor → ℕ → ReadLine
unfolding readline_from_socket
readline d max = readline_from_socket d max 0

two_lines :
    ((readline (file (b'a' ∷ b'\n' ∷ b'\r' ∷ [])) 9).rest ≡ file (b'\r' ∷ []))
    × ((readline_from_socket
          (socket (byte b'a' ∷ byte b'\n' ∷ byte b'\r' ∷ byte b'b' ∷ []))
          9
          0).residue
        ≡ b'b')
unfolding readline
two_lines = (refl, refl)
