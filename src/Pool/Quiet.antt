-- ===== src/Pool/Quiet.antt =====
-- Runs of the threads of both servers in which nothing is heard on a socket.
use bulletin_board.Base.{ℕ, ◌+◌, ◌≡◌, refl, List, [], ◌∷◌, ◌++◌, arith}
use bulletin_board.Base.Counting.{total}
use bulletin_board.Pool.Threads.{World, Event, hears, Step, Run, here, then_step}

abbrev pub awaits_socket : Event → ℕ
awaits_socket (hears i) = 1
awaits_socket _ = 0

-- A run in which no thread hears anything on a socket.
abbrev pub Quiet : World → World → Type 0
Quiet w t = (es : List Event) × Run w es t × (total awaits_socket es ≡ 0)

pub Quiet-refl : (w : World) → Quiet w w
unfolding total
Quiet-refl w = ([], here, refl)

pub Quiet-step :
    {w t u : World} → Quiet w t → {e : Event} → Step t e u → awaits_socket e ≡ 0 → Quiet w u
unfolding total
Quiet-step (es, run, q) {e} st z = (e ∷ es, then_step run st, omega arith)

Run-trans : {w t u : World} {es fs : List Event} → Run w es t → Run t fs u → Run w (fs ++ es) u
Run-trans r here = r
Run-trans r (then_step s st) = then_step (Run-trans r s) st

total-append :
    (es fs : List Event)
    → total awaits_socket (es ++ fs) ≡ total awaits_socket es + total awaits_socket fs
unfolding total
total-append [] fs = omega arith
total-append (e ∷ es) fs = omega (arith, total-append es fs)

pub Quiet-trans : {w t u : World} → Quiet w t → Quiet t u → Quiet w u
Quiet-trans (es, r, y) (fs, s, z) = (fs ++ es, Run-trans r s, omega (arith, total-append fs es))
