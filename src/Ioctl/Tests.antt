-- ===== src/Ioctl/Tests.antt =====
-- ioctl/code.c with a process whose first 64 bytes are mapped.
use lkb.Common.{
  List, ◌++◌, lt_int, inr, ℕ, ◌+◌, ◌*◌, ◌-◌, ◌/◌, ◌%◌, ◌^◌, ◌≤◌, ◌<◌, suc, zero, pos, ◌≡◌, ◌≢◌, ◌↔◌,
  ◌⊎◌, refl, sym, ap, ◌∙◌, Bool, ltb, if◌then◌else◌, [], ◌∷◌, arith,
}
use native.Mathlib.Nat.{div-div-eq-div-mul}
use lkb.Kernel.UserSpace.{UserApi}
use lkb.Ioctl.{
  opened, closed, from_user_failed, Commands, got, no_match, get_variables, dev_ioctl, eacces,
  long_size, fops,
}
use lkb.Ioctl.Program.{module_line, error_ioctl, set_done, main, main_roundtrip}
use lkb.Ioctl.Results.{result}
use lkb.Ioctl.Session.{
  Call, open_file, release, ioctl, handle, handle_all, session, Spares, get_after,
}

-- A byte is what an entry is modulo 256.
abbrev Bytes : Type 0
Bytes = ℕ → ℕ

abbrev mapped : (a n : ℕ) → Bool
mapped a n = ltb (a + n) 65

store : (to value n : ℕ) → Bytes → Bytes
store to value n u a =
    if ltb a to then u a else if ltb a (to + n) then value / 256 ^ (a - to) else u a

fetch : (from n : ℕ) → Bytes → ℕ
fetch from zero u = 0
fetch from (suc n) u = u from % 256 + 256 * fetch (suc from) n u

pow_suc : (i : ℕ) → 256 ^ suc i ≡ 256 * 256 ^ i
pow_suc i = omega arith

add_zero : (a : ℕ) → a + 0 ≡ a
add_zero a = omega arith

add_sub : (a b : ℕ) → a + b - a ≡ b
add_sub a b = omega arith

digit_suc : (r x i : ℕ) → r < 256 → (r + 256 * x) / 256 ^ suc i ≡ x / 256 ^ i
digit_suc r x i h =
    ap (λ k. (r + 256 * x) / k) (pow_suc i)
    ∙ sym (div-div-eq-div-mul (r + 256 * x) 256 (256 ^ i))
    ∙ ap (λ k. k / 256 ^ i) (omega arith)

fetch-digit :
    (from n : ℕ) (u : Bytes) (i : ℕ) → i < n → fetch from n u / 256 ^ i % 256 ≡ u (from + i) % 256
unfolding fetch
fetch-digit from zero u i h = omega arith
fetch-digit from (suc n) u zero h = ground (arith, ap u (add_zero from))
fetch-digit from (suc n) u (suc i) h =
    ap (λ k. k % 256) (digit_suc (u from % 256) (fetch (suc from) n u) i (omega arith))
    ∙ fetch-digit (suc from) n u i (omega arith)
    ∙ ap (λ k. u k % 256) (omega arith)

store-byte :
    (to value n : ℕ) (u : Bytes) (i : ℕ) → i < n → store to value n u (to + i) ≡ value / 256 ^ i
unfolding store
store-byte to value n u i h = ground (arith, ap (λ k. value / 256 ^ k) (add_sub to i))

store-outside :
    (to value n : ℕ) (u : Bytes) (a : ℕ) → (a < to) ⊎ (to + n ≤ a) → store to value n u a ≡ u a
unfolding store
store-outside to value n u a h = ground arith

abbrev copy_to : (to value n : ℕ) → Bytes → ℕ × Bytes
copy_to to value n u = if mapped to n then (0, store to value n u) else (n, u)

abbrev copy_from : (from n : ℕ) → Bytes → ℕ × ℕ
copy_from from n u = if mapped from n then (0, fetch from n u) else (n, 0)

copy_to-stored :
    (to value n : ℕ) (u : Bytes) (i : ℕ)
    → (copy_to to value n u).0 ≡ 0
    → i < n
    → (copy_to to value n u).1 (to + i) % 256 ≡ value / 256 ^ i % 256
copy_to-stored to value n u i h lt = ground (arith, store-byte to value n u i lt)

copy_to-kept :
    (to value n : ℕ) (u : Bytes) (a : ℕ)
    → (a < to) ⊎ (to + n ≤ a)
    → (copy_to to value n u).1 a % 256 ≡ u a % 256
copy_to-kept to value n u a h = ground (arith, store-outside to value n u a h)

copy_from-fetched :
    (from n : ℕ) (u : Bytes) (i : ℕ)
    → (copy_from from n u).0 ≡ 0
    → i < n
    → (copy_from from n u).1 / 256 ^ i % 256 ≡ u (from + i) % 256
copy_from-fetched from n u i h lt = ground (arith, fetch-digit from n u i lt)

abbrev process : UserApi
process = record {
  User = Bytes;
  byte = λ u a. u a % 256;
  copy_to_user = copy_to;
  copy_from_user = copy_from;
  stored = copy_to-stored;
  kept = copy_to-kept;
  fetched = copy_from-fetched;
}

abbrev commands : Commands
commands = record {
  get = 1;
  clr = 2;
  set = 3;
  get_clr = omega arith;
  get_set = omega arith;
  clr_set = omega arith;
}

abbrev unknown : ℕ
unknown = 7

abbrev zeros : Bytes
zeros = λ a. 0

result_example :
    ((dev_ioctl process commands unknown 60 zeros).1.1 ≡ pos 0
      ⊎ (dev_ioctl process commands unknown 60 zeros).1.1 ≡ eacces)
    × (((dev_ioctl process commands unknown 60 zeros).1.1 ≡ eacces)
        ↔ ((unknown ≡ commands.get) × ((process.copy_to_user 60 14 long_size zeros).0 ≢ 0))
          ⊎ ((unknown ≡ commands.set) × ((process.copy_from_user 60 long_size zeros).0 ≢ 0)))
    × (unknown ≢ commands.get
        → unknown ≢ commands.clr
        → unknown ≢ commands.set
        → (dev_ioctl process commands unknown 60 zeros).0 ≡ no_match ∷ [])
result_example = result process commands unknown 60 zeros

-- A SET, then the GET at 40, then another at 8.
abbrev earlier : List Call
earlier = open_file ∷ ioctl 3 40 ∷ []

abbrev later : List Call
later = ioctl 1 8 ∷ release ∷ []

-- The GET at 8 spares the bytes from 40 on.
later-Spares : (i : ℕ) → i < 8 → Spares process commands (40 + i) later
later-Spares i lt = (λ e. inr (omega arith), tt)

get_after_example :
    let r = session process commands (pos 0) (earlier ++ ioctl 1 40 ∷ later) zeros in
    (r.1.1 ≡ pos 0)
    × (process.byte r.1.0 40 ≡ 14)
    × ((i : ℕ) → i < 7 → process.byte r.1.0 (40 + (1 + i)) ≡ 0)
    × ((a : ℕ)
        → Spares process commands a earlier
        → (a < 40) ⊎ (40 + 8 ≤ a)
        → Spares process commands a later
        → process.byte r.1.0 a ≡ process.byte zeros a)
unfolding handle_all handle dev_ioctl get_variables lt_int
get_after_example = get_after process commands (pos 0) earlier later 40 zeros refl refl later-Spares

-- The `int` at 40.
abbrev keep : ℕ → Bytes → Bytes
keep v u = store 40 v 4 u

main_roundtrip_example :
    let sent = keep 140 (keep 0 zeros) in
    ((process.copy_from_user 40 long_size sent).0 ≡ 0
      → (v : ℕ) × (main (fops process commands) commands keep (pos 3) 40 tt zeros ≡ (
        module_line opened ∷ module_line (got v) ∷ set_done ∷ module_line closed ∷ [],
        (tt, sent, pos 0),
      ))
        × (v % 2 ^ 32 ≡ 140))
    × ((process.copy_from_user 40 long_size sent).0 ≢ 0
        → main (fops process commands) commands keep (pos 3) 40 tt zeros ≡ (
          module_line opened
              ∷ module_line from_user_failed
              ∷ error_ioctl
              ∷ set_done
              ∷ module_line closed
              ∷ [],
          (tt, sent, pos 0),
        ))
unfolding lkb.Common.lt_int
main_roundtrip_example =
    main_roundtrip process commands keep (pos 3) 40 zeros
      (λ v w i lt. ap (λ k. k % 256) (store-byte 40 v 4 w i lt)) refl
