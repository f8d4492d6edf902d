-- ===== src/PeerCommunication/Wakeups.antt =====
-- Which thread of a transaction is inside pthread_cond_wait, and which step wakes it.
use bulletin_board.Base.{
  ℕ, zero, suc, ◌≡◌, inl, inr, refl, sym, ap, ◌∙◌, Bool, true, false, not, some, List, [], ◌∷◌, map,
  arith, ◌==◌, get_elem?, set, replicate, if◌then◌else◌, get_elem?-set,
}
use mathlib.Core.Path.{subst}
use bulletin_board.Text.{Bytes}
use bulletin_board.Store.{Store}
use bulletin_board.PeerCommunication.{
  Statistics, new_statistics, notify_threads_to_abort, notify_threads_to_undo_commit,
  acknowledge_ready, waits_for_ready, acknowledge_commit, waits_for_commit, confirms, confirmed,
  undone, Phase, connecting, ready_waits, ready_counted, commit_waits, commit_counted, ended,
}
use bulletin_board.PeerCommunication.Threads.{
  Shared, Move, connect, connect_fails, lose_ready, receive_ready, lose_commit, receive_unsuccess,
  receive_success, send_decision, System, step, Reach, start, later,
}

-- `pthread_cond_broadcast(&peerCommunicationCondition)`
unfoldable pub broadcasts :
    {user command : Bytes} {s s' : Shared} {p p' : Phase} → Move user command s p s' p' → Bool
broadcasts {s} connect_fails = not s.statistics.should_abort
broadcasts {s} (lose_ready r e) = not s.statistics.should_abort
broadcasts {s} (receive_ready r e) = (acknowledge_ready s.statistics).ready_pending == 0
broadcasts {s} (lose_commit r e) = not s.statistics.did_fail
broadcasts {s} (receive_unsuccess r e) = not s.statistics.did_fail
broadcasts {s} (receive_success r e) = (acknowledge_commit s.statistics).commit_pending == 0
broadcasts _ = false

-- Whether a thread that has come to this phase is inside pthread_cond_wait.
abbrev pub sleeps : Phase → Bool
sleeps ready_waits = true
sleeps commit_waits = true
sleeps _ = false

abbrev pub woken : Bool → List Bool → List Bool
woken true = map (λ b. false)
woken false = λ bs. bs

pub record Scene : Type 0 where
  pub system : System
  pub asleep : List Bool

-- The test of the loop that a thread is in, for which it has to wait.
abbrev pub MustWait : Statistics → Phase → Type 0
MustWait st ready_waits = waits_for_ready st ≡ true
MustWait st commit_waits = waits_for_commit st ≡ true
MustWait st _ = ⊥

pub data Turn (user command : Bytes) (c : Scene) : Scene → Type 0 where
  -- a step of a thread that does not sleep
  runs :
      (i : ℕ) {p p' : Phase} {s' : Shared}
      → get_elem? c.system.threads i ≡ some p
      → get_elem? c.asleep i ≡ some false
      → (m : Move user command c.system.shared p s' p')
      → Turn user command c (record {
        system = record { shared = s'; threads = set c.system.threads i p' };
        asleep = set (woken (broadcasts m) c.asleep) i (sleeps p');
      })
  -- the loop's test, run again, holds
  sleeps_again :
      (i : ℕ) {p : Phase}
      → get_elem? c.system.threads i ≡ some p
      → MustWait c.system.shared.statistics p
      → Turn user command c (record c { asleep = set c.asleep i true })
  -- pthread_cond_wait may return with no broadcast
  wakes : (i : ℕ) → Turn user command c (record c { asleep = set c.asleep i false })

pub data Plays (user command : Bytes) (peers : ℕ) (store : Store) : Scene → Type 0 where
  opening : Plays user command peers store (record {
    system = record {
      shared = record { statistics = new_statistics peers; store = store };
      threads = replicate peers connecting;
    };
    asleep = replicate peers false;
  })
  continued :
      {c d : Scene}
      → Plays user command peers store c
      → Turn user command c d
      → Plays user command peers store d

-- What the threads do is a run of the transaction: its theorems hold here.
pub Plays-Reach :
    {user command : Bytes} {peers : ℕ} {store : Store} {c : Scene}
    → Plays user command peers store c
    → Reach user command peers store c.system
Plays-Reach opening = start
Plays-Reach (continued r (runs i at awake m)) = later (Plays-Reach r) (step i at m)
Plays-Reach (continued r (sleeps_again i at w)) = Plays-Reach r
Plays-Reach (continued r (wakes i)) = Plays-Reach r

still_waits_for_ready :
    {user command : Bytes} {s s' : Shared} {p p' : Phase} (m : Move user command s p s' p')
    → broadcasts m ≡ false
    → waits_for_ready s.statistics ≡ true
    → waits_for_ready s'.statistics ≡ true
unfolding broadcasts waits_for_ready acknowledge_ready acknowledge_commit notify_threads_to_abort
    notify_threads_to_undo_commit
still_waits_for_ready connect quiet w = w
still_waits_for_ready _ quiet w = ground arith

still_waits_for_commit :
    {user command : Bytes} {s s' : Shared} {p p' : Phase} (m : Move user command s p s' p')
    → broadcasts m ≡ false
    → waits_for_commit s.statistics ≡ true
    → waits_for_commit s'.statistics ≡ true
unfolding broadcasts waits_for_commit acknowledge_ready acknowledge_commit notify_threads_to_abort
    notify_threads_to_undo_commit
still_waits_for_commit connect quiet w = w
still_waits_for_commit _ quiet w = ground arith

-- A step that wakes nobody leaves the tests of those who wait as they are.
Move-MustWait :
    {user command : Bytes} {s s' : Shared} {p p' : Phase} (m : Move user command s p s' p')
    (q : Phase)
    → broadcasts m ≡ false
    → MustWait s.statistics q
    → MustWait s'.statistics q
Move-MustWait m ready_waits quiet w = still_waits_for_ready m quiet w
Move-MustWait m commit_waits quiet w = still_waits_for_commit m quiet w
Move-MustWait m _ quiet w = absurd w

ready_sleeper :
    (st : Statistics) (b : Bool)
    → waits_for_ready st ≡ b
    → sleeps (if b then ready_waits else ready_counted) ≡ true
    → MustWait st (if b then ready_waits else ready_counted)
ready_sleeper st true e h = e
ready_sleeper st false e h = cc

commit_sleeper :
    (st : Statistics) (b : Bool)
    → waits_for_commit st ≡ b
    → sleeps (if b then commit_waits else commit_counted) ≡ true
    → MustWait st (if b then commit_waits else commit_counted)
commit_sleeper st true e h = e
commit_sleeper st false e h = cc

no_sleeper :
    (st : Statistics) (b : Bool)
    → sleeps (if b then ended confirmed else ended undone) ≡ true
    → MustWait st (if b then ended confirmed else ended undone)
no_sleeper st true h = cc
no_sleeper st false h = cc

-- A thread goes to sleep only where its test holds.
Move-sleeps :
    {user command : Bytes} {s s' : Shared} {p p' : Phase} (m : Move user command s p s' p')
    → sleeps p' ≡ true
    → MustWait s'.statistics p'
Move-sleeps {s} (receive_ready r e) h = ready_sleeper (acknowledge_ready s.statistics) _ refl h
Move-sleeps {s} (receive_success r e) h = commit_sleeper (acknowledge_commit s.statistics) _ refl h
Move-sleeps {s} send_decision h = no_sleeper s.statistics (confirms s.statistics) h
Move-sleeps _ h = cc

get_elem?-woken :
    (b : Bool) (bs : List Bool) (j : ℕ)
    → get_elem? (woken b bs) j ≡ some true
    → (b ≡ false) × (get_elem? bs j ≡ some true)
get_elem?-woken false bs j h = (refl, h)
get_elem?-woken true [] j h = cc
get_elem?-woken true (x ∷ bs) zero h = cc
get_elem?-woken true (x ∷ bs) (suc j) h = absurd (ground (arith, get_elem?-woken true bs j h))

abbrev SleepersWait : Scene → Type 0
SleepersWait c =
    (j : ℕ) (q : Phase)
    → get_elem? c.asleep j ≡ some true
    → get_elem? c.system.threads j ≡ some q
    → MustWait c.system.shared.statistics q

Turn-SleepersWait :
    {user command : Bytes} {c d : Scene} → Turn user command c d → SleepersWait c → SleepersWait d
Turn-SleepersWait {c} (runs i {p} {p'} {s'} at awake m) inv j q asleep k =
    elim (get_elem?-set (woken (broadcasts m) c.asleep) i j (sleeps p') true asleep) [
      | inl (e, falls) ↦ elim (get_elem?-set c.system.threads i j p' q k) [
        | inl (_, same) ↦ subst (MustWait s'.statistics) (sym same) (Move-sleeps m (sym falls))
        | inr (other, _) ↦ absurd (other e)
      ]
      | inr (other, slept) ↦ elim (get_elem?-set c.system.threads i j p' q k) [
        | inl (e, _) ↦ absurd (other e)
        | inr (_, stood) ↦
            let (quiet, before) = get_elem?-woken (broadcasts m) c.asleep j slept in
            Move-MustWait m q quiet (inv j q before stood)
      ]
    ]
Turn-SleepersWait {c} (sleeps_again i {p} at w) inv j q asleep k =
    elim (get_elem?-set c.asleep i j true true asleep) [
      | inl (e, _) ↦
          let same : some p ≡ some q = sym at ∙ ap (get_elem? c.system.threads) e ∙ k in
          subst (MustWait c.system.shared.statistics) (ground arith) w
      | inr (_, before) ↦ inv j q before k
    ]
Turn-SleepersWait {c} (wakes i) inv j q asleep k =
    elim (get_elem?-set c.asleep i j false true asleep) [
      | inl (_, e) ↦ cc
      | inr (_, before) ↦ inv j q before k
    ]

get_elem?-replicate-false : (n j : ℕ) → get_elem? (replicate n false) j ≡ some true → ⊥
get_elem?-replicate-false zero j h = cc
get_elem?-replicate-false (suc n) zero h = cc
get_elem?-replicate-false (suc n) (suc j) h = get_elem?-replicate-false n j h

Plays-SleepersWait :
    {user command : Bytes} {peers : ℕ} {store : Store} {c : Scene}
    → Plays user command peers store c
    → SleepersWait c
Plays-SleepersWait {peers} opening = λ j q h k. absurd (get_elem?-replicate-false peers j h)
Plays-SleepersWait (continued r t) = Turn-SleepersWait t (Plays-SleepersWait r)

-- No wake-up is lost: whoever sleeps in a transaction would find, if it ran its test, that it has to
-- wait, so that the thread of a test that fails is awake.
pub sleeper-MustWait :
    {user command : Bytes} {peers : ℕ} {store : Store} {c : Scene} (i : ℕ) {p : Phase}
    → Plays user command peers store c
    → get_elem? c.asleep i ≡ some true
    → get_elem? c.system.threads i ≡ some p
    → MustWait c.system.shared.statistics p
sleeper-MustWait i {p} r asleep at = Plays-SleepersWait r i p asleep at
