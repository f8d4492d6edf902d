-- ===== src/SyncServer/Answers.antt =====
-- The slave tells failure from success by the word ERROR in the response. That is right: only the
-- refusals hold it.
use bulletin_board.Base.{
  ℕ, zero, suc, ◌≡◌, inr, refl, Bool, true, false, not, [], ◌∷◌, ◌++◌, arith, take, if◌then◌else◌,
}
use bulletin_board.Base.Int.{ℤ, pos, negsuc}
use bulletin_board.Text.{
  Bytes, codes, c_str, has_infix, starts_with, print_int, create_message, snprintf, print_code,
}
use bulletin_board.Text.Decimal.{to_string, digits}
use bulletin_board.Text.Tokens.{IsFreeOf, IsFreeOf-append, print_int-IsWord}
use bulletin_board.BoardFile.{wrote, unavailable}
use bulletin_board.SyncServer.{operation_failed}

IsFreeOf-take : (d n : ℕ) (s : Bytes) → IsFreeOf d s → IsFreeOf d (take n s)
IsFreeOf-take d zero s h = tt
IsFreeOf-take d (suc n) [] h = tt
IsFreeOf-take d (suc n) (c ∷ s) h = (h.0, IsFreeOf-take d n s h.1)

IsFreeOf-c_str : (d : ℕ) (s : Bytes) → IsFreeOf d s → IsFreeOf d (c_str s)
unfolding c_str
IsFreeOf-c_str d [] h = tt
IsFreeOf-c_str d (c ∷ s) h = ground (arith, IsFreeOf-c_str d s h.1)

has_infix-IsFreeOf : (x : ℕ) (p s : Bytes) → IsFreeOf x s → has_infix (x ∷ p) s ≡ false
unfolding has_infix starts_with
has_infix-IsFreeOf x p [] h = refl
has_infix-IsFreeOf x p (c ∷ s) h = ground (arith, has_infix-IsFreeOf x p s h.1)

number-IsFreeOf : (n : ℤ) → IsFreeOf b'E' (print_int n)
unfolding print_int
number-IsFreeOf (pos n) = (print_int-IsWord b'E' n (inr (omega arith))).1
number-IsFreeOf (negsuc n) = (omega arith, (print_int-IsWord b'E' (suc n) (inr (omega arith))).1)

tail-IsFreeOf :
    (k : ℕ) (n : ℤ) (hold : Bool)
    → IsFreeOf b'E' (c_str (take k (print_int n ++ (if not hold then b'\n' ∷ [] else []))))
tail-IsFreeOf k n hold =
    let newline : Bytes = if not hold then b'\n' ∷ [] else [] in
    IsFreeOf-c_str b'E' (take k (print_int n ++ newline)) (
      IsFreeOf-take b'E' k (print_int n ++ newline)
        (IsFreeOf-append b'E' (print_int n) newline (number-IsFreeOf n) (end hold)))
  where
    end : (hold : Bool) → IsFreeOf b'E' (if not hold then b'\n' ∷ [] else [])
    end true = tt
    end false = (omega arith, tt)

-- The response "3.0 WROTE n" holds no ERROR, whatever the number, with its newline or without.
pub operation_failed-wrote : (n : ℤ) (hold : Bool) → operation_failed (wrote n hold) ≡ false
unfolding operation_failed wrote create_message has_infix starts_with snprintf c_str print_code
    to_string digits
operation_failed-wrote n hold = has_infix-IsFreeOf b'E' (codes "RROR") _ (tail-IsFreeOf 244 n hold)

-- "3.2 ERROR WRITE ..." does.
pub operation_failed-unavailable :
    (operation_failed (unavailable true (codes "bbfile currently unavailable")) ≡ true)
    × (operation_failed (unavailable true (codes "bbfile is currently unavailable")) ≡ true)
unfolding operation_failed unavailable
operation_failed-unavailable = (refl, refl)
