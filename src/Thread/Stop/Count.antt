-- ===== src/Thread/Stop/Count.antt =====
-- What a thread is at each status, and sums over the threads of a list.
use lkb.Common.{
  ℕ, ◌+◌, ◌≡◌, refl, Bool, true, false, ◌==◌, if◌then◌else◌, List, [], ◌∷◌, has, Distinct, arith,
}
use lkb.Thread.Stop.{
  Status, created, looping, returned, refused, Stage, waking, loaded, blocked, Line, running,
  thread_stopped, set_at,
}

abbrev pub is_ended : Status → Bool
is_ended returned = true
is_ended refused = true
is_ended _ = false

abbrev pub is_returned : Status → ℕ
is_returned returned = 1
is_returned _ = 0

abbrev pub is_created : Status → Bool
is_created created = true
is_created _ = false

-- The function `mfoo` of the thread has begun.
abbrev pub has_run : Status → Bool
has_run looping = true
has_run returned = true
has_run _ = false

-- `km_exit` has begun.
abbrev pub is_late : Stage → Bool
is_late waking = false
is_late loaded = false
is_late _ = true

abbrev pub is_blocked : Stage → Bool
is_blocked blocked = true
is_blocked _ = false

-- The sum of w over the threads of a list.
abbrev pub sum_by : (Status → ℕ) → (ℕ → Status) → List ℕ → ℕ
sum_by w f [] = 0
sum_by w f (t ∷ ts) = w (f t) + sum_by w f ts

-- How many lines a thread has printed.
abbrev pub lines_of : ℕ → List Line → ℕ
lines_of t [] = 0
lines_of t (running u ∷ xs) = (if u == t then 1 else 0) + lines_of t xs
lines_of t (thread_stopped i ∷ xs) = lines_of t xs

sum_by-set_ne :
    (w : Status → ℕ) (f : ℕ → Status) (t : ℕ) (a : Status) (xs : List ℕ)
    → has t xs ≡ false
    → sum_by w (set_at f t a) xs ≡ sum_by w f xs
sum_by-set_ne w f t a [] out = refl
sum_by-set_ne w f t a (x ∷ xs) out = ground (arith, sum_by-set_ne w f t a xs)

pub sum_by-set :
    (w : Status → ℕ) (f : ℕ → Status) (t : ℕ) (a : Status) (xs : List ℕ)
    → Distinct xs
    → has t xs ≡ true
    → sum_by w (set_at f t a) xs + w (f t) ≡ sum_by w f xs + w a
sum_by-set w f t a [] d here = cc
sum_by-set w f t a (x ∷ xs) d here = ground (arith, sum_by-set w f t a xs, sum_by-set_ne w f t a xs)
