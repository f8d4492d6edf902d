-- ===== src/Lock/Invariant.antt =====
-- The counters count the threads, and nobody sleeps through its chance.
use bulletin_board.Base.{
  ℕ, ◌+◌, ◌<◌, ◌≡◌, inl, inr, refl, sym, Bool, true, false, some, List, [], ◌∷◌, map, arith,
  if◌then◌else◌, get_elem?, set, replicate,
}
use bulletin_board.Base.Counting.{total, total-set, total-replicate_zero}
use bulletin_board.Lock.{
  AccessData, unlocked, announce_writer, writer_must_wait, enter_writer, leave_writer,
  reader_must_wait, enter_reader, leave_reader, last_reader_leaves,
}
use bulletin_board.Lock.Threads.{
  Pc, outside, reader_asleep, reading, writer_asleep, writer_awake, writing, kept_lock,
  owner_asleep, owner_awake, System, wake, wake_if, Move, read_wait, read_enter, read_leave,
  write_wait, write_enter, write_again, write_enter_awake, write_leave, write_keeps, owner_wait,
  owner_again, owner_wakes, reader_wakes, writer_wakes, Step, step, Reach, start, later,
}

abbrev pub is_reading : Pc → ℕ
is_reading reading = 1
is_reading _ = 0

abbrev pub is_writing : Pc → ℕ
is_writing writing = 1
is_writing kept_lock = 1
is_writing owner_asleep = 1
is_writing owner_awake = 1
is_writing _ = 0

abbrev pub waits_to_write : Pc → ℕ
waits_to_write writer_asleep = 1
waits_to_write writer_awake = 1
waits_to_write owner_asleep = 1
waits_to_write owner_awake = 1
waits_to_write _ = 0

abbrev pub reader_sleeps : Pc → ℕ
reader_sleeps reader_asleep = 1
reader_sleeps _ = 0

abbrev pub writer_sleeps : Pc → ℕ
writer_sleeps writer_asleep = 1
writer_sleeps owner_asleep = 1
writer_sleeps _ = 0

total-wake :
    (w : Pc → ℕ)
    → ((p : Pc) → w (wake p) ≡ w p)
    → (ts : List Pc) → total w (map wake ts) ≡ total w ts
unfolding total
total-wake w h [] = refl
total-wake w h (p ∷ ts) = omega (arith, h p, total-wake w h ts)

total-wake_zero :
    (w : Pc → ℕ) → ((p : Pc) → w (wake p) ≡ 0) → (ts : List Pc) → total w (map wake ts) ≡ 0
unfolding total
total-wake_zero w h [] = refl
total-wake_zero w h (p ∷ ts) = omega (arith, h p, total-wake_zero w h ts)

abbrev pub flag : Bool → ℕ
flag true = 1
flag false = 0

-- The counters are right, the writer is alone, and who sleeps has to.
pub record Inv (s : System) : Type 0 where
  pub readers : s.access.num_readers_active ≡ total is_reading s.threads
  pub waiting : s.access.num_writers_waiting ≡ total waits_to_write s.threads
  pub writer : flag s.access.writer_active ≡ total is_writing s.threads
  pub exclusive : s.access.writer_active ≡ true → s.access.num_readers_active ≡ 0
  pub readers_sleep : 0 < total reader_sleeps s.threads → reader_must_wait s.access ≡ true
  pub writers_sleep : 0 < total writer_sleeps s.threads → writer_must_wait s.access ≡ true

-- One thread goes from `p` to `p'`, and `b` says whether all that sleep are woken.
record Counts (ts ts' : List Pc) (p p' : Pc) (b : Bool) : Type 0 where
  readers : total is_reading ts' + is_reading p ≡ total is_reading ts + is_reading p'
  waiting :
      total waits_to_write ts' + waits_to_write p ≡ total waits_to_write ts + waits_to_write p'
  writer : total is_writing ts' + is_writing p ≡ total is_writing ts + is_writing p'
  readers_sleep :
      (if b
        then total reader_sleeps ts' ≡ 0
        else total reader_sleeps ts' + reader_sleeps p ≡ total reader_sleeps ts + reader_sleeps p')
  writers_sleep :
      (if b
        then total writer_sleeps ts' ≡ 0
        else total writer_sleeps ts' + writer_sleeps p ≡ total writer_sleeps ts + writer_sleeps p')

total-wake_if :
    (w : Pc → ℕ)
    → ((p : Pc) → w (wake p) ≡ w p)
    → (b : Bool) (ts : List Pc) → total w (wake_if b ts) ≡ total w ts
total-wake_if w h true ts = total-wake w h ts
total-wake_if w h false ts = refl

sleepers :
    (w : Pc → ℕ)
    → ((p : Pc) → w (wake p) ≡ 0)
    → (b : Bool) (ts : List Pc) (i : ℕ) (p p' : Pc) → get_elem? ts i ≡ some p
    → if b
      then total w (wake_if b (set ts i p')) ≡ 0
      else total w (wake_if b (set ts i p')) + w p ≡ total w ts + w p'
sleepers w h true ts i p p' e = total-wake_zero w h (set ts i p')
sleepers w h false ts i p p' e = total-set w ts i p p' e

counts :
    (ts : List Pc) (i : ℕ) (p p' : Pc) (b : Bool)
    → get_elem? ts i ≡ some p
    → Counts ts (wake_if b (set ts i p')) p p' b
counts ts i p p' b e = record {
  readers = kept is_reading (λ q. ground arith);
  waiting = kept waits_to_write (λ q. ground arith);
  writer = kept is_writing (λ q. ground arith);
  readers_sleep = sleepers reader_sleeps (λ q. ground arith) b ts i p p' e;
  writers_sleep = sleepers writer_sleeps (λ q. ground arith) b ts i p p' e;
}
  where
    kept :
        (w : Pc → ℕ)
        → ((q : Pc) → w (wake q) ≡ w q)
        → total w (wake_if b (set ts i p')) + w p ≡ total w ts + w p'
    kept w h = omega (arith, total-wake_if w h b (set ts i p'), total-set w ts i p p' e)

Move-Inv :
    {a a' : AccessData} {p p' : Pc} {b : Bool} (ts ts' : List Pc)
    → Move a p a' p' b
    → Counts ts ts' p p' b
    → Inv (record { access = a; threads = ts })
    → Inv (record { access = a'; threads = ts' })
unfolding reader_must_wait writer_must_wait announce_writer enter_writer leave_writer enter_reader
    leave_reader last_reader_leaves
Move-Inv ts ts' (read_wait (inl h) w) c inv = ground arith
Move-Inv ts ts' (read_wait (inr h) w) c inv = ground arith
Move-Inv ts ts' (read_enter (inl h) w) c inv = ground arith
Move-Inv ts ts' (read_enter (inr h) w) c inv = ground arith
Move-Inv ts ts' read_leave c inv = ground arith
Move-Inv ts ts' (write_wait w) c inv = ground arith
Move-Inv ts ts' (write_enter w) c inv = ground arith
Move-Inv ts ts' (write_again w) c inv = ground arith
Move-Inv ts ts' (write_enter_awake w) c inv = ground arith
Move-Inv ts ts' write_leave c inv = ground arith
Move-Inv ts ts' write_keeps c inv = ground arith
Move-Inv ts ts' (owner_wait w) c inv = ground arith
Move-Inv ts ts' (owner_again w) c inv = ground arith
Move-Inv ts ts' owner_wakes c inv = ground arith
Move-Inv ts ts' reader_wakes c inv = ground arith
Move-Inv ts ts' writer_wakes c inv = ground arith

pub Step-Inv : {s t : System} → Step s t → Inv s → Inv t
Step-Inv {s} (step i {p} {a} {p'} {b} e m) inv =
    Move-Inv s.threads (wake_if b (set s.threads i p')) m (counts s.threads i p p' b e) inv

Inv-start : (n : ℕ) → Inv (record { access = unlocked; threads = replicate n outside })
Inv-start n = record {
  readers = sym (total-replicate_zero is_reading n outside refl);
  waiting = sym (total-replicate_zero waits_to_write n outside refl);
  writer = sym (total-replicate_zero is_writing n outside refl);
  exclusive = λ e. refl;
  readers_sleep = λ lt. absurd (omega (arith, total-replicate_zero reader_sleeps n outside refl));
  writers_sleep = λ lt. absurd (omega (arith, total-replicate_zero writer_sleeps n outside refl));
}

pub Reach-Inv : {n : ℕ} {s : System} → Reach n s → Inv s
Reach-Inv {n} start = Inv-start n
Reach-Inv (later r st) = Step-Inv st (Reach-Inv r)
