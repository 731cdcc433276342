-- ===== src/Kernel/ChrdevApi.antt =====
-- `register_chrdev` and `unregister_chrdev` of linux/fs.h behind their documented behaviour, for a
-- major number that is not 0.
use lkb.Common.{ℕ, ℤ, pos, lt_int, ◌≡◌, ◌==◌, if◌then◌else◌, Option, none, some, true, false}

pub record ChrdevApi : Type 1 where
  pub Table : Type 0
  -- The address of the `struct file_operations` that is registered for a major number.
  pub fops_of : Table → ℕ → Option ℕ
  -- 0, or a negative error, as -EBUSY for a number that is taken.
  pub register_chrdev : (major fops : ℕ) → Table → ℤ × Table
  pub unregister_chrdev : (major : ℕ) → Table → Table
  pub register-taken :
      (major fops f : ℕ) (t : Table)
      → fops_of t major ≡ some f
      → lt_int (register_chrdev major fops t).0 (pos 0) ≡ true
  pub fops_of-register :
      (major fops : ℕ) (t : Table) (n : ℕ)
      → lt_int (register_chrdev major fops t).0 (pos 0) ≡ false
      → fops_of (register_chrdev major fops t).1 n ≡ (if n == major then some fops else fops_of t n)
  pub fops_of-register_failed :
      (major fops : ℕ) (t : Table) (n : ℕ)
      → lt_int (register_chrdev major fops t).0 (pos 0) ≡ true
      → fops_of (register_chrdev major fops t).1 n ≡ fops_of t n
  pub fops_of-unregister :
      (major : ℕ) (t : Table) (n : ℕ)
      → fops_of (unregister_chrdev major t) n ≡ (if n == major then none else fops_of t n)
