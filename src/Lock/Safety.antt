-- ===== src/Lock/Safety.antt =====
-- What the readers-writer lock guarantees in every interleaving.
use bulletin_board.Base.{
  ℕ, zero, suc, ◌+◌, ◌≤◌, ◌<◌, ◌≡◌, ◌≢◌, ◌⊎◌, inl, inr, refl, ap, ◌∙◌, Bool, true, some, List, [],
  ◌∷◌, arith, get_elem?,
}
use bulletin_board.Base.Counting.{total, le-total, find}
use bulletin_board.Lock.{
  AccessData, reader_must_wait, writer_must_wait, enter_reader, leave_reader, enter_writer,
  leave_writer, announce_writer,
}
use bulletin_board.Lock.Threads.{
  Pc, outside, reader_asleep, reader_awake, reading, writer_asleep, writer_awake, writing,
  kept_lock, owner_asleep, owner_awake, System, Step, step, Reach, Move, read_wait, read_enter,
}
use bulletin_board.Lock.Invariant.{
  Inv, Reach-Inv, is_reading, is_writing, waits_to_write, reader_sleeps, writer_sleeps,
}
use native.Mathlib.Decide.{ℕ_discrete}

add-le-total :
    (w : Pc → ℕ) (ts : List Pc) (i j : ℕ) (p q : Pc)
    → get_elem? ts i ≡ some p
    → get_elem? ts j ≡ some q
    → i ≢ j
    → w p + w q ≤ total w ts
unfolding total
add-le-total w [] i j p q h k ne = cc
add-le-total w (t ∷ ts) zero zero p q h k ne = absurd (ne refl)
add-le-total w (t ∷ ts) zero (suc j) p q h k ne = ground (arith, le-total w ts j q k)
add-le-total w (t ∷ ts) (suc i) zero p q h k ne = ground (arith, le-total w ts i p h)
add-le-total w (t ∷ ts) (suc i) (suc j) p q h k ne =
    omega (arith, add-le-total w ts i j p q h k (λ e. ne (ap suc e)))

abbrev pub IsInside : Pc → Type 0
IsInside p = (p ≡ writing) ⊎ (p ≡ reading)

-- While a thread writes, no other thread writes or reads.
pub writer_alone :
    {n : ℕ} {s : System} (i j : ℕ) {p : Pc}
    → Reach n s
    → get_elem? s.threads i ≡ some writing
    → get_elem? s.threads j ≡ some p
    → IsInside p
    → i ≡ j
writer_alone {s} i j {p} r h k inside = elim (ℕ_discrete i j) [
  | yes e ↦ e
  | no ne ↦
      let inv = Reach-Inv r in
      let readers = inv.readers in
      let writer = inv.writer in
      let exclusive = inv.exclusive in
      absurd (elim inside [
        | inl e ↦ ground (arith, add-le-total is_writing s.threads i j writing p h k ne, writer)
        | inr e ↦ ground (
          arith,
          le-total is_writing s.threads i writing h,
          le-total is_reading s.threads j p k,
          writer,
          readers,
          exclusive,
        )
      ])
]

-- A thread sleeps only while its test holds: no wake-up is lost.
pub sleeper_must_wait :
    {n : ℕ} {s : System} (i : ℕ)
    → Reach n s
    → (get_elem? s.threads i ≡ some reader_asleep → reader_must_wait s.access ≡ true)
      × (get_elem? s.threads i ≡ some writer_asleep → writer_must_wait s.access ≡ true)
sleeper_must_wait {s} i r =
    let inv = Reach-Inv r in
    (
      λ h. inv.readers_sleep (le-total reader_sleeps s.threads i reader_asleep h),
      λ h. inv.writers_sleep (le-total writer_sleeps s.threads i writer_asleep h),
    )

abbrev pub CanGoOn : Pc → Type 0
CanGoOn p = (p ≡ writing) ⊎ (p ≡ reading) ⊎ (p ≡ writer_awake)

-- A thread that has kept the lock, and will not release it.
abbrev pub HasKept : Pc → Type 0
HasKept p = (p ≡ kept_lock) ⊎ (p ≡ owner_asleep) ⊎ (p ≡ owner_awake)

-- For whom a sleeping thread waits.
abbrev pub Blocker : System → Type 0
Blocker s = (j : ℕ) × (q : Pc) × (get_elem? s.threads j ≡ some q) × (CanGoOn q ⊎ HasKept q)

found_inside :
    (w : Pc → ℕ) (ts : List Pc)
    → ((p : Pc) → 0 < w p → CanGoOn p ⊎ HasKept p)
    → 0 < total w ts
    → (j : ℕ) × (q : Pc) × (get_elem? ts j ≡ some q) × (CanGoOn q ⊎ HasKept q)
found_inside w ts go h = let (j, q, at, lt) = find w ts h in (j, q, at, go q lt)

-- Whoever a writer waits for is inside.
writer_waits_for : (s : System) → Inv s → writer_must_wait s.access ≡ true → Blocker s
unfolding writer_must_wait
writer_waits_for s inv h = elim (ℕ_discrete s.access.num_readers_active 0) [
  | yes e ↦
      found_inside is_writing s.threads (λ q lt. ground arith)
        (let writer = inv.writer in ground arith)
  | no ne ↦
      found_inside is_reading s.threads (λ q lt. ground arith)
        (let readers = inv.readers in omega arith)
]

-- A reader waits for a writer that is inside, awake, or asleep, and then for whom that one waits.
reader_waits_for : (s : System) → Inv s → reader_must_wait s.access ≡ true → Blocker s
unfolding reader_must_wait
reader_waits_for s inv h = elim (ℕ_discrete s.access.num_writers_waiting 0) [
  | yes e ↦
      found_inside is_writing s.threads (λ q lt. ground arith)
        (let writer = inv.writer in ground arith)
  | no ne ↦ waiting_writer (find waits_to_write s.threads (let w = inv.waiting in omega arith))
]
  where
    waiting_writer :
        (j : ℕ) × (q : Pc) × (get_elem? s.threads j ≡ some q) × (0 < waits_to_write q) → Blocker s
    waiting_writer (j, writer_asleep, at, lt) =
        writer_waits_for s inv
          (inv.writers_sleep (le-total writer_sleeps s.threads j writer_asleep at))
    waiting_writer (j, writer_awake, at, lt) = (j, writer_awake, at, inl (inr (inr refl)))
    waiting_writer (j, owner_asleep, at, lt) = (j, owner_asleep, at, inr (inr (inl refl)))
    waiting_writer (j, owner_awake, at, lt) = (j, owner_awake, at, inr (inr (inr refl)))
    waiting_writer (j, kept_lock, at, lt) = absurd (omega arith)
    waiting_writer (j, outside, at, lt) = absurd (omega arith)
    waiting_writer (j, reader_asleep, at, lt) = absurd (omega arith)
    waiting_writer (j, reader_awake, at, lt) = absurd (omega arith)
    waiting_writer (j, reading, at, lt) = absurd (omega arith)
    waiting_writer (j, writing, at, lt) = absurd (omega arith)

-- While a thread sleeps, some thread reads, writes, or is a woken writer that tests again; or some
-- thread has kept the lock, which it has ended with or asks for again itself.
pub sleeper_waits_for :
    {n : ℕ} {s : System} (i : ℕ) {p : Pc}
    → Reach n s
    → get_elem? s.threads i ≡ some p
    → (p ≡ reader_asleep) ⊎ (p ≡ writer_asleep)
    → Blocker s
sleeper_waits_for {s} i r h e = elim e [
  | inl reader ↦ reader_waits_for s (Reach-Inv r) ((sleeper_must_wait i r).0 (h ∙ ap some reader))
  | inr writer ↦ writer_waits_for s (Reach-Inv r) ((sleeper_must_wait i r).1 (h ∙ ap some writer))
]

-- The readers inside, after one step, while a writer is counted as waiting.
Move-while_waiting :
    {a a' : AccessData} {p p' : Pc} {b : Bool}
    → Move a p a' p' b
    → 0 < a.num_writers_waiting
    → a'.num_readers_active ≤ a.num_readers_active
unfolding reader_must_wait announce_writer enter_writer leave_writer enter_reader leave_reader
Move-while_waiting (read_wait h w) lt = omega arith
Move-while_waiting (read_enter h w) lt = absurd (ground arith)
Move-while_waiting _ lt = ground arith

-- Writers come first: while a writer waits, no step lets a reader in.
pub no_reader_enters :
    {n : ℕ} {s t : System} (i : ℕ) {p : Pc}
    → Reach n s
    → get_elem? s.threads i ≡ some p
    → (p ≡ writer_asleep) ⊎ (p ≡ writer_awake)
    → Step s t
    → t.access.num_readers_active ≤ s.access.num_readers_active
no_reader_enters {s} i {p} r h e (step j at m) =
    let waiting = (Reach-Inv r).waiting in
    Move-while_waiting m (ground (arith, waiting, le-total waits_to_write s.threads i p h))
