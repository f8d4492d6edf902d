-- ===== src/LineReader/Bounds.antt =====
-- How much a call stores, and how much it takes from the descriptor.
use bulletin_board.Base.{
  ℕ, zero, suc, ◌+◌, ◌-◌, ◌≤◌, ◌<◌, ◌≡◌, ◌≢◌, ◌⊎◌, inl, inr, refl, Bool, true, false, List, [], ◌∷◌,
  ◌++◌, arith, Bool-cases, length, length-append, ◌==◌,
}
use bulletin_board.Text.{Bytes}
use bulletin_board.LineReader.{
  ReadResult, Arrival, byte, pause, fault, Descriptor, file, socket, bad, exhausted, line,
  poll_socket, recv_socket, recv_nonblock, skip_terminators, drain_terminators, read_arrival,
  read_byte, fill, readline_from_socket, got, eof, error,
}

ReadResult-cases : (w : ReadResult) → (w ≡ error) ⊎ ((w ≡ eof) ⊎ ((c : ℕ) × (w ≡ got c)))
ReadResult-cases error = inl refl
ReadResult-cases eof = inr (inl refl)
ReadResult-cases (got c) = inr (inr (c, refl))

fill_bound :
    (rounds : ℕ) (begin : Bool) (buf : Bytes) (d : Descriptor) (text : Bytes)
    → (fill rounds begin buf d).outcome ≡ line text
    → length text ≤ length buf + rounds
unfolding fill
fill_bound zero begin buf d text e = ground arith
fill_bound (suc rounds) begin buf d text e = elim (ReadResult-cases (read_byte d).0) [
  | inl q ↦ ground arith
  | inr (inl q) ↦ ground arith
  | inr (inr (c, q)) ↦ ground (
    arith,
    fill_bound rounds false (buf ++ c ∷ []) (read_byte d).1 text,
    length-append buf (c ∷ []),
  )
]

-- A line is never longer than the limit, so that with its NUL it takes one byte more at most.
pub readline_from_socket_bound :
    (d : Descriptor) (max residue : ℕ) (text : Bytes)
    → 0 < max
    → (readline_from_socket d max residue).outcome ≡ line text
    → length text ≤ max
unfolding readline_from_socket
readline_from_socket_bound d max residue text lt e =
    ground (arith, fill_bound max true [] d text, fill_bound (max - 1) true (residue ∷ []) d text)

-- What can still be read.
abbrev pub remaining : Descriptor → ℕ
remaining (file s) = length s
remaining (socket r) = length r
remaining bad = 0

skip_terminators-le : (r : List Arrival) → length (skip_terminators r).1 ≤ length r
unfolding skip_terminators poll_socket recv_socket recv_nonblock
skip_terminators-le [] = omega arith
skip_terminators-le (byte c ∷ r) = ground (arith, skip_terminators-le r)
skip_terminators-le (pause ∷ r) = ground arith
skip_terminators-le (fault ∷ r) = ground arith

drain_terminators-le : (d : Descriptor) → remaining (drain_terminators d).1 ≤ remaining d
unfolding drain_terminators
drain_terminators-le (socket r) = skip_terminators-le r
drain_terminators-le (file s) = omega arith
drain_terminators-le bad = omega arith

read_arrival-lt :
    (r : List Arrival) → ((read_arrival r).0 ≡ eof) ⊎ (length (read_arrival r).1 < length r)
unfolding read_arrival
read_arrival-lt [] = inl refl
read_arrival-lt (byte c ∷ r) = inr (omega arith)
read_arrival-lt (pause ∷ r) = elim (read_arrival-lt r) [
  | inl e ↦ inl e
  | inr lt ↦ inr (omega arith)
]
read_arrival-lt (fault ∷ r) = inr (omega arith)

read_byte-lt :
    (d : Descriptor) → d ≢ bad → ((read_byte d).0 ≡ eof) ⊎ (remaining (read_byte d).1 < remaining d)
unfolding read_byte
read_byte-lt (file []) h = inl refl
read_byte-lt (file (c ∷ s)) h = inr (omega arith)
read_byte-lt (socket r) h = read_arrival-lt r
read_byte-lt bad h = absurd (h refl)

read_arrival-le : (r : List Arrival) → length (read_arrival r).1 ≤ length r
unfolding read_arrival
read_arrival-le [] = omega arith
read_arrival-le (byte c ∷ r) = omega arith
read_arrival-le (pause ∷ r) = omega (arith, read_arrival-le r)
read_arrival-le (fault ∷ r) = omega arith

read_byte-le : (d : Descriptor) → remaining (read_byte d).1 ≤ remaining d
unfolding read_byte
read_byte-le (file []) = omega arith
read_byte-le (file (c ∷ s)) = omega arith
read_byte-le (socket r) = read_arrival-le r
read_byte-le bad = omega arith

-- The first round takes what is read, and the others nothing back.
fill-turn :
    (rounds : ℕ) (begin : Bool) (buf : Bytes) (d : Descriptor)
    → ((buf' : Bytes) (d' : Descriptor) → remaining (fill rounds false buf' d').rest ≤ remaining d')
    → remaining (fill (suc rounds) begin buf d).rest ≤ remaining (read_byte d).1
unfolding fill
fill-turn rounds begin buf d more = elim (ReadResult-cases (read_byte d).0) [
  | inl q ↦ ground arith
  | inr (inl q) ↦ ground (arith, drain_terminators-le (read_byte d).1)
  | inr (inr (c, q)) ↦
      ground (arith, more (buf ++ c ∷ []) (read_byte d).1, drain_terminators-le (read_byte d).1)
]

fill-le :
    (rounds : ℕ) (begin : Bool) (buf : Bytes) (d : Descriptor)
    → remaining (fill rounds begin buf d).rest ≤ remaining d
unfolding fill
fill-le zero begin buf d = omega arith
fill-le (suc rounds) begin buf d =
    omega (arith, fill-turn rounds begin buf d (fill-le rounds false), read_byte-le d)

fill-lt :
    (rounds : ℕ) (buf : Bytes) (d : Descriptor)
    → 0 < rounds
    → d ≢ bad
    → ((fill rounds true buf d).outcome ≡ exhausted)
      ⊎ (remaining (fill rounds true buf d).rest < remaining d)
unfolding fill
fill-lt zero buf d lt h = absurd (omega arith)
fill-lt (suc rounds) buf d lt h = elim (read_byte-lt d h) [
  | inl q ↦ inl (ground arith)
  | inr less ↦ inr (omega (arith, less, fill-turn rounds true buf d (fill-le rounds false)))
]

-- A call that finds more than the end takes a byte at least.
pub readline_from_socket-lt :
    (d : Descriptor) (max residue : ℕ)
    → 1 < max
    → d ≢ bad
    → ((readline_from_socket d max residue).outcome ≡ exhausted)
      ⊎ (remaining (readline_from_socket d max residue).rest < remaining d)
unfolding readline_from_socket
readline_from_socket-lt d max residue lt h = elim (Bool-cases (residue == 0)) [
  | inl e ↦ ground (arith, fill-lt max [] d)
  | inr e ↦ ground (arith, fill-lt (max - 1) (residue ∷ []) d)
]
