-- ===== src/Kernfs/Loads.antt =====
-- kernfs/code.c, loaded, used and unloaded again and again.
use lkb.Common.{
  ℕ, zero, suc, ◌+◌, ◌≤◌, ◌≡◌, refl, ◌∙◌, ap, pos, ℤ, List, [], ◌∷◌, length, Option, none, some,
  arith,
}
use lkb.Kernel.KernfsApi.{KernfsApi}
use lkb.Kernfs.{Operation, show_options, mkdir, rmdir, rename, fruit, km_init, km_exit}

abbrev pub created : Option ℕ → ℕ
created none = 0
created (some p) = 1

created_le : (q : Option ℕ) → created q ≤ 1
created_le none = omega arith
created_le (some p) = omega arith

abbrev pub zeros : ℕ → List ℤ
zeros zero = []
zeros (suc n) = pos 0 ∷ zeros n

module _ (api : KernfsApi) where
  open api use {Kernfs, roots, kernfs_create_root}

  -- The operations in their order.
  unfoldable pub use_root : List Operation → Kernfs → Kernfs
  use_root [] k = k
  use_root (o ∷ os) k = use_root os (fruit api o k).0

  -- n loads, each with operations and an unload: the results of `km_init`, and how many of them
  -- have created a root.
  unfoldable pub loads : (kernfs_file n : ℕ) → List Operation → Kernfs → Kernfs × List ℤ × ℕ
  loads kernfs_file zero os k = (k, [], 0)
  loads kernfs_file (suc n) os k =
      let before = loads kernfs_file n os k in
      let made = km_init api kernfs_file before.0 in
      let used = use_root os made.1.0 in
      let gone = km_exit api used in (gone.1, made.1.2 ∷ before.1, before.2 + created made.1.1)

  use_root_lem : (os : List Operation) (k : Kernfs) → use_root os k ≡ k
  unfolding use_root fruit
  use_root_lem [] k = refl
  use_root_lem (show_options seq kf_root ∷ os) k = use_root_lem os k
  use_root_lem (mkdir parent_kn name mode ∷ os) k = use_root_lem os k
  use_root_lem (rmdir kn ∷ os) k = use_root_lem os k
  use_root_lem (rename kn new_parent new_name ∷ os) k = use_root_lem os k

  roots-create_all :
      (k : Kernfs) (q : Option ℕ)
      → (kernfs_create_root k).0 ≡ q
      → length (roots (kernfs_create_root k).1) ≡ length (roots k) + created q
  roots-create_all k none e = ap length (api.roots-create_failed k e) ∙ omega arith
  roots-create_all k (some p) e = ap length (api.roots-create k p e) ∙ omega arith

  -- Every load returns 0, also where it has created no root. After n loads, each with the
  -- operations and an unload, there are as many roots more than before as loads have created one,
  -- at most n.
  pub loads_leak :
      (kernfs_file n : ℕ) (os : List Operation) (k : Kernfs)
      → let r = loads kernfs_file n os k in
        (r.1 ≡ zeros n) × (length (roots r.0) ≡ length (roots k) + r.2) × (r.2 ≤ n)
  unfolding loads km_init km_exit
  loads_leak kernfs_file zero os k = (refl, omega arith, omega arith)
  loads_leak kernfs_file (suc n) os k =
      let before = (loads kernfs_file n os k).0 in
      let (results, kept, few) = loads_leak kernfs_file n os k in
      let used = use_root_lem os (kernfs_create_root before).1 in
      let made = roots-create_all before (kernfs_create_root before).0 refl in
      (
        ap (λ xs. pos 0 ∷ xs) results,
        rw used (omega arith),
        omega (arith, created_le (kernfs_create_root before).0),
      )
