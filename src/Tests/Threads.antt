-- ===== src/Tests/Threads.antt =====
-- Interleavings of two threads.
use bulletin_board.Base.{ℕ, ◌≡◌, inl, inr, refl, true, some, get_elem?, [], ◌∷◌}
use bulletin_board.Lock.{
  unlocked, reader_must_wait, writer_must_wait, announce_writer, enter_writer,
}
use bulletin_board.Lock.Threads.{
  System, Reach, start, later, Step, step, write_enter, write_wait, outside, writing, writer_asleep,
  reader_asleep,
}
use bulletin_board.Lock.Safety.{writer_alone, sleeper_must_wait, sleeper_waits_for, Blocker}

abbrev one_writes : System
one_writes = record {
  access = enter_writer (announce_writer unlocked);
  threads = writing ∷ outside ∷ [];
}

-- One thread writes, and another asks to write.
abbrev one_waits : System
one_waits = record {
  access = announce_writer (enter_writer (announce_writer unlocked));
  threads = writing ∷ writer_asleep ∷ [];
}

one_writes-Reach : Reach 2 one_writes
one_writes-Reach =
    later start (step 0 refl (write_enter (unfold announce_writer writer_must_wait in refl)))

one_waits-Step : Step one_writes one_waits
one_waits-Step =
    step 1 refl (write_wait (unfold announce_writer writer_must_wait enter_writer in refl))

one_waits-Reach : Reach 2 one_waits
one_waits-Reach = later one_writes-Reach one_waits-Step

writer_alone_example : ◌≡◌ {A = ℕ} 0 0
writer_alone_example = writer_alone 0 0 one_waits-Reach refl refl (inl refl)

sleeper_must_wait_example :
    (get_elem? one_waits.threads 1 ≡ some reader_asleep → reader_must_wait one_waits.access ≡ true)
    × (get_elem? one_waits.threads 1 ≡ some writer_asleep
        → writer_must_wait one_waits.access ≡ true)
sleeper_must_wait_example = sleeper_must_wait 1 one_waits-Reach

sleeper_waits_for_example : Blocker one_waits
sleeper_waits_for_example = sleeper_waits_for 1 one_waits-Reach refl (inr refl)
