-- ===== src/Startup/Daemon.antt =====
-- main.cpp: the descriptors of the daemon. The kernel gives the lowest free descriptor, and a call on
-- a descriptor that is not open does nothing; whether the terminal can be opened is a parameter, and
-- /dev/null and the log are taken to be opened.
use bulletin_board.Base.{
  ℕ, zero, suc, ◌≤◌, ◌≡◌, refl, ap, Bool, true, false, Option, none, some, List, [], ◌∷◌, arith,
  get_elem?, length, replicate, sym,
}
use mathlib.Core.Path.{subst}
use bulletin_board.Text.{Bytes, codes}

-- What stands behind the descriptors 0, 1, 2 and so on.
abbrev pub Descriptors : Type 0
Descriptors = List (Option Bytes)

unfoldable pub lowest_free : Descriptors → ℕ
lowest_free [] = 0
lowest_free (none ∷ t) = 0
lowest_free (some file ∷ t) = suc (lowest_free t)

-- `open`, or the second half of `dup`
unfoldable pub open_lowest : Bytes → Descriptors → Descriptors
open_lowest name [] = some name ∷ []
open_lowest name (none ∷ t) = some name ∷ t
open_lowest name (some file ∷ t) = some file ∷ open_lowest name t

unfoldable pub close_descriptor : ℕ → Descriptors → Descriptors
close_descriptor i [] = []
close_descriptor zero (d ∷ t) = none ∷ t
close_descriptor (suc i) (d ∷ t) = d ∷ close_descriptor i t

unfoldable pub duplicate : ℕ → Descriptors → Descriptors
unfolding open_lowest
duplicate i t = elim (get_elem? t i) [ some (some name) ↦ open_lowest name t | _ ↦ t ]

-- `for (int i = getdtablesize() - 1; i >= 0; i--) close(i);`
unfoldable pub close_all : ℕ → Descriptors → Descriptors
unfolding close_descriptor
close_all zero t = t
close_all (suc n) t = close_all n (close_descriptor n t)

-- The terminal, which is opened to be given up.
unfoldable pub leave_terminal : Bool → Descriptors → Descriptors
unfolding lowest_free open_lowest close_descriptor
leave_terminal true t = close_descriptor (lowest_free t) (open_lowest (codes "/dev/tty") t)
leave_terminal false t = t

-- The log takes the places of the standard output and of the errors.
unfoldable pub open_log : Descriptors → Descriptors
unfolding lowest_free open_lowest duplicate
open_log t = duplicate (lowest_free t) (open_lowest (codes "./bbserv.log") t)

unfoldable pub daemon_descriptors :
    (tty_opens : Bool) → (getdtablesize : ℕ) → Descriptors → Descriptors
unfolding close_all leave_terminal open_log open_lowest
daemon_descriptors tty_opens getdtablesize t =
    open_log
      (open_lowest (codes "/dev/null") (leave_terminal tty_opens (close_all getdtablesize t)))

-- No descriptor from `n` on is open.
abbrev pub IsShutFrom : ℕ → Descriptors → Type 0
IsShutFrom n [] = Unit
IsShutFrom zero (d ∷ t) = (d ≡ none) × IsShutFrom zero t
IsShutFrom (suc n) (d ∷ t) = IsShutFrom n t

length-IsShutFrom : (n : ℕ) (t : Descriptors) → length t ≤ n → IsShutFrom n t
length-IsShutFrom n [] le = tt
length-IsShutFrom zero (d ∷ t) le = absurd (omega arith)
length-IsShutFrom (suc n) (d ∷ t) le = length-IsShutFrom n t (omega arith)

close_descriptor-IsShutFrom :
    (n : ℕ) (t : Descriptors) → IsShutFrom (suc n) t → IsShutFrom n (close_descriptor n t)
unfolding close_descriptor
close_descriptor-IsShutFrom n [] h = tt
close_descriptor-IsShutFrom zero (d ∷ t) h = (refl, h)
close_descriptor-IsShutFrom (suc n) (d ∷ t) h = close_descriptor-IsShutFrom n t h

close_all-IsShutFrom : (n : ℕ) (t : Descriptors) → IsShutFrom n t → IsShutFrom zero (close_all n t)
unfolding close_all
close_all-IsShutFrom zero t h = h
close_all-IsShutFrom (suc n) t h =
    close_all-IsShutFrom n (close_descriptor n t) (close_descriptor-IsShutFrom n t h)

abbrev pub free_run : ℕ → Descriptors
free_run n = replicate n none

-- A table in which nothing is open is a run of free descriptors.
shut-replicate : (t : Descriptors) → IsShutFrom zero t → t ≡ free_run (length t)
shut-replicate [] h = refl
shut-replicate (d ∷ t) h = rw h.0 (ap (◌∷◌ none) (shut-replicate t h.1))

-- The files behind the daemon's first descriptors.
abbrev pub Redirected : Descriptors → Type 0
Redirected t =
    (u : Descriptors) × (t
      ≡ some (codes "/dev/null") ∷ some (codes "./bbserv.log") ∷ some (codes "./bbserv.log") ∷ u)
    × IsShutFrom zero u

replicate-IsShutFrom : (n : ℕ) → IsShutFrom zero (free_run n)
replicate-IsShutFrom zero = tt
replicate-IsShutFrom (suc n) = (refl, replicate-IsShutFrom n)

redirected :
    (tty_opens : Bool) (n : ℕ)
    → Redirected
        (open_log (open_lowest (codes "/dev/null") (leave_terminal tty_opens (free_run n))))
unfolding open_log leave_terminal open_lowest lowest_free close_descriptor duplicate
redirected true zero = ([], refl, tt)
redirected false zero = ([], refl, tt)
redirected true (suc zero) = ([], refl, tt)
redirected false (suc zero) = ([], refl, tt)
redirected true (suc (suc zero)) = ([], refl, tt)
redirected false (suc (suc zero)) = ([], refl, tt)
redirected true (suc (suc (suc n))) = (replicate n none, refl, replicate-IsShutFrom n)
redirected false (suc (suc (suc n))) = (replicate n none, refl, replicate-IsShutFrom n)

-- Whatever the daemon has inherited below getdtablesize(), and whether it has a terminal or not, where
-- /dev/null and the log can be opened: its standard input is /dev/null, its output and errors go to
-- the log, and nothing else is open.
pub daemon_descriptors-Redirected :
    (tty_opens : Bool) (getdtablesize : ℕ) (t : Descriptors)
    → length t ≤ getdtablesize
    → Redirected (daemon_descriptors tty_opens getdtablesize t)
unfolding daemon_descriptors
daemon_descriptors-Redirected tty_opens getdtablesize t le =
    let shut = close_all getdtablesize t in
    let free = close_all-IsShutFrom getdtablesize t (length-IsShutFrom getdtablesize t le) in
    subst
      (λ x. Redirected (open_log (open_lowest (codes "/dev/null") (leave_terminal tty_opens x))))
      (sym (shut-replicate shut free)) (redirected tty_opens (length shut))
