-- ===== src/Ioctl/Session.antt =====
-- ioctl/code.c from its load to its unload, with any file operations of one process between.
use lkb.Common.{
  ℕ, ◌+◌, ◌≤◌, ◌<◌, ℤ, pos, lt_int, ◌≡◌, ◌⊎◌, refl, ◌∙◌, false, not, if◌then◌else◌, List, [], ◌∷◌,
  ◌++◌, arith,
}
use lkb.Common.Events.{Io, ◌>>=◌, return}
use lkb.Kernel.UserSpace.{UserApi}
use lkb.Ioctl.{
  Commands, Line, ioctl_init, ioctl_exit, dev_open, dev_release, dev_ioctl, get_variables,
  set_variables, long_size,
}
use lkb.Ioctl.Results.{get_overwrites}

-- What the process calls.
pub data Call : Type 0 where
  open_file : Call
  release : Call
  ioctl : (cmd arg : ℕ) → Call

module _ (api : UserApi) (c : Commands) where
  open api use {User, byte, copy_to_user}

  -- `fops`
  unfoldable pub handle : Call → User → Io Line (User × ℤ)
  unfolding dev_open dev_release
  handle open_file u = dev_open >>= λ r. return (u, r)
  handle release u = dev_release >>= λ r. return (u, r)
  handle (ioctl cmd arg) u = dev_ioctl api c cmd arg u

  -- The memory of the process, and the results in order.
  unfoldable pub handle_all : List Call → User → Io Line (User × List ℤ)
  handle_all [] u = return (u, [])
  handle_all (x ∷ xs) u =
      let r = handle x u in
      let rest = handle_all xs r.1.0 in (r.0 ++ rest.0, (rest.1.0, r.1.1 ∷ rest.1.1))

  -- The module is loaded, where `register_chrdev` returns ret, used and unloaded: the memory of the
  -- process, and the result of `ioctl_init`.
  unfoldable pub session : (ret : ℤ) → List Call → User → Io Line (User × ℤ)
  session ret xs u = do
    r ← ioctl_init ret
    if not r.0
        then return (u, r.1)
        else do done ← handle_all xs u; gone ← ioctl_exit; return (done.0, r.1)

  -- No GET of these calls writes at a.
  abbrev pub Spares : ℕ → List Call → Type 0
  Spares a [] = Unit {0}
  Spares a (open_file ∷ xs) = Spares a xs
  Spares a (release ∷ xs) = Spares a xs
  Spares a (ioctl cmd arg ∷ xs) = (cmd ≡ c.get → (a < arg) ⊎ (arg + 8 ≤ a)) × Spares a xs

  dev_ioctl-frame :
      (cmd arg a : ℕ) (u : User)
      → (cmd ≡ c.get → (a < arg) ⊎ (arg + 8 ≤ a))
      → byte (dev_ioctl api c cmd arg u).1.0 a ≡ byte u a
  unfolding dev_ioctl get_variables set_variables
  dev_ioctl-frame cmd arg a u out = ground (arith, api.kept arg 14 long_size u a)

  handle_all-frame :
      (a : ℕ) (xs : List Call) (u : User) → Spares a xs → byte (handle_all xs u).1.0 a ≡ byte u a
  unfolding handle_all handle
  handle_all-frame a [] u h = refl
  handle_all-frame a (open_file ∷ xs) u h = handle_all-frame a xs u h
  handle_all-frame a (release ∷ xs) u h = handle_all-frame a xs u h
  handle_all-frame a (ioctl cmd arg ∷ xs) u h =
      handle_all-frame a xs (dev_ioctl api c cmd arg u).1.0 h.1 ∙ dev_ioctl-frame cmd arg a u h.0

  handle_all-append :
      (xs ys : List Call) (u : User)
      → (handle_all (xs ++ ys) u).1.0 ≡ (handle_all ys (handle_all xs u).1.0).1.0
  unfolding handle_all
  handle_all-append [] ys u = refl
  handle_all-append (x ∷ xs) ys u = handle_all-append xs ys (handle x u).1.0

  memory_lem :
      (xs ys : List Call) (cmd arg : ℕ) (u : User)
      → (handle_all (xs ++ ioctl cmd arg ∷ ys) u).1.0
        ≡ (handle_all ys (dev_ioctl api c cmd arg (handle_all xs u).1.0).1.0).1.0
  unfolding handle_all handle
  memory_lem xs ys cmd arg u = handle_all-append xs (ioctl cmd arg ∷ ys) u

  -- Where the registration succeeds: after any calls, a GET that returns 0, and calls that spare
  -- its eight bytes, these bytes are 14 and seven times 0, whatever was SET before; the four after
  -- an `int` are among them. A byte that all the calls spare is as it was, and the load has
  -- returned 0.
  pub get_after :
      (ret : ℤ) (xs ys : List Call) (arg : ℕ) (u : User)
      → lt_int ret (pos 0) ≡ false
      → (dev_ioctl api c c.get arg (handle_all xs u).1.0).1.1 ≡ pos 0
      → ((i : ℕ) → i < 8 → Spares (arg + i) ys)
      → let r = session ret (xs ++ ioctl c.get arg ∷ ys) u in
        (r.1.1 ≡ pos 0)
        × (byte r.1.0 arg ≡ 14)
        × ((i : ℕ) → i < 7 → byte r.1.0 (arg + (1 + i)) ≡ 0)
        × ((a : ℕ)
            → Spares a xs
            → (a < arg) ⊎ (arg + 8 ≤ a)
            → Spares a ys
            → byte r.1.0 a ≡ byte u a)
  unfolding session ioctl_init ioctl_exit
  get_after ret xs ys arg u good got spared =
      let m = (handle_all xs u).1.0 in
      let (first, others, kept) = get_overwrites api c arg m got in
      rw (good, memory_lem xs ys c.get arg u)
        (
          refl,
          handle_all-frame arg ys _ (at_first ys arg (spared 0 (omega arith))) ∙ first,
          λ i lt.
              handle_all-frame (arg + (1 + i)) ys _ (spared (1 + i) (omega arith)) ∙ others i lt,
          λ a before out after.
              handle_all-frame a ys _ after ∙ kept a out ∙ handle_all-frame a xs u before,
        )
    where
      at_first : (zs : List Call) (n : ℕ) → Spares (n + 0) zs → Spares n zs
      at_first zs n h = let e : n + 0 ≡ n = omega arith in rw e at h
