-- ===== src/Ioctl/Program.antt =====
-- ioctl/ioctl.c, the program that uses the device of ioctl/code.c, with the calls that it makes of
-- the device's operations. `fd` is what `open` returns, negative when there is no device; `store v`
-- writes the `int` v at `q`, the address of the variable.
use lkb.Common.{
  ℕ, ◌+◌, ◌/◌, ◌%◌, ◌^◌, ◌<◌, ℤ, pos, negsuc, lt_int, ◌≡◌, ◌≢◌, refl, ◌∙◌, false, if◌then◌else◌, [],
  ◌∷◌, map, arith,
}
use lkb.Common.Events.{Io, ◌>>=◌, ◌>>◌, emit, return}
use lkb.Kernel.UserSpace.{UserApi}
use lkb.Kernel.FileOps.{FileOps}
use lkb.Ioctl.{
  Commands, opened, closed, got, from_user_failed, dev_open, dev_release, dev_ioctl, fops,
  get_variables, set_variables, long_size, eacces,
}
use lkb.Ioctl.Results.{set_reads}

-- What the module does, and what the program prints.
pub data Output (E : Type 0) : Type 0 where
  module_line : E → Output E
  open_failed : Output E
  error_ioctl : Output E
  set_done : Output E

-- A call of an operation of the device.
abbrev pub call : {E A : Type 0} → Io E A → Io (Output E) A
call m = (map module_line m.0, m.1)

low_half :
    (v : ℕ)
    → v / 256 ^ 0 % 256 ≡ 140
    → v / 256 ^ 1 % 256 ≡ 0
    → v / 256 ^ 2 % 256 ≡ 0
    → v / 256 ^ 3 % 256 ≡ 0
    → v % 2 ^ 32 ≡ 140
low_half v a b c d = omega arith

module _ {M U E : Type 0} (f : FileOps M U E) (c : Commands) where
  -- `main`, on the device that f is: what the module keeps, the memory of the process, the result.
  -- `ioctl` returns -1 where the operation returns a negative number.
  unfoldable pub main : (store : ℕ → U → U) (fd : ℤ) (q : ℕ) → M → U → Io (Output E) (M × U × ℤ)
  main store fd q m u =
      let u1 = store 0 u in
      if lt_int fd (pos 0) then (emit open_failed >> return (m, u1, negsuc 0)) else do
        o ← call (f.open_op m)
        let u2 = store 140 u1
        r ← call (f.ioctl_op c.set q o.0 u2)
        e ← (if lt_int r.2 (pos 0) then emit error_ioctl else return tt)
        d ← emit set_done
        k ← call (f.release_op r.0)
        return (k.0, r.1, pos 0)

module _ (api : UserApi) (c : Commands) where
  open api use {User, byte, copy_from_user}

  set_fails :
      (arg : ℕ) (u : User)
      → (copy_from_user arg long_size u).0 ≢ 0
      → dev_ioctl api c c.set arg u ≡ (from_user_failed ∷ [], (u, eacces))
  unfolding dev_ioctl get_variables set_variables
  set_fails arg u h = ground (arith, c.get_set, c.clr_set)

  -- Where the device is opened and `store` writes the bytes of an `int`: if the copy is complete,
  -- the module prints a number that is 140 in its lower half, whatever stands behind the variable;
  -- if it is not, the program reports an error. In both cases it goes on, prints that it is done,
  -- closes the device and returns 0.
  pub main_roundtrip :
      (store : ℕ → User → User) (fd : ℤ) (q : ℕ) (u : User)
      → ((v : ℕ) (w : User) (i : ℕ) → i < 4 → byte (store v w) (q + i) ≡ v / 256 ^ i % 256)
      → lt_int fd (pos 0) ≡ false
      → let sent = store 140 (store 0 u) in
        ((copy_from_user q long_size sent).0 ≡ 0
          → (v : ℕ) × (main (fops api c) c store fd q tt u ≡ (
            module_line opened ∷ module_line (got v) ∷ set_done ∷ module_line closed ∷ [],
            (tt, sent, pos 0),
          ))
            × (v % 2 ^ 32 ≡ 140))
        × ((copy_from_user q long_size sent).0 ≢ 0
            → main (fops api c) c store fd q tt u ≡ (
              module_line opened
                  ∷ module_line from_user_failed
                  ∷ error_ioctl
                  ∷ set_done
                  ∷ module_line closed
                  ∷ [],
              (tt, sent, pos 0),
            ))
  unfolding main fops dev_open dev_release lt_int
  main_roundtrip store fd q u stores good =
      let sent = store 140 (store 0 u) in
      let at : (i : ℕ) → i < 4 → byte sent (q + i) ≡ 140 / 256 ^ i % 256 =
        λ i lt. stores 140 (store 0 u) i lt in
      (
        λ copied.
            let (v, reads, bytes) = set_reads api c q sent copied in
            (
              v,
              rw (good, reads) refl,
              low_half v (bytes 0 (omega arith) ∙ at 0 (omega arith))
                  (bytes 1 (omega arith) ∙ at 1 (omega arith))
                  (bytes 2 (omega arith) ∙ at 2 (omega arith))
                  (bytes 3 (omega arith) ∙ at 3 (omega arith)),
            ),
        λ failed. rw (good, set_fails q sent failed) refl,
      )
