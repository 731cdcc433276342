-- ===== src/Interrupt.antt =====
-- interrupt01/code.c: a handler on a shared interrupt line. `my_dev_id` is the address that names
-- the device.
pub mod Session
mod Tests
use lkb.Common.{
  ℕ, ℤ, pos, negsuc, is_zero, Bool, true, false, ◌||◌, ◌==◌, if◌then◌else◌, List, [], ◌∷◌, ◌++◌,
}
use lkb.Common.Events.{Io, ◌>>=◌, ◌>>◌, emit, return}
use lkb.Kernel.IrqApi.{IrqApi}

-- What is printed.
pub data Line : Type 0 where
  inside_interrupt : Line
  request_error : ℕ → Line

-- The number of the line.
abbrev pub sirq : ℕ
sirq = 19

-- -EIO
abbrev pub eio : ℤ
eio = negsuc 4

-- `my_interrupt`: whether it has handled the interrupt; IRQ_NONE is false.
unfoldable pub my_interrupt : Io Line Bool
my_interrupt = emit inside_interrupt >> return false

-- The handlers of a line: that of this module, and those of the other devices, which answer `others
-- d`.
abbrev pub handler : (my_dev_id : ℕ) (others : ℕ → Bool) → ℕ → Io Line Bool
handler my_dev_id others d = if d == my_dev_id then my_interrupt else return (others d)

module _ (api : IrqApi) where
  open api use {Lines, request_irq, free_irq}

  unfoldable pub code_init : (my_dev_id : ℕ) → Lines → Io Line (Lines × ℤ)
  code_init my_dev_id ls =
      let r = request_irq sirq my_dev_id ls in
      if is_zero r.0 then return (r.1, pos 0) else (emit (request_error sirq) >> return (r.1, eio))

  unfoldable pub code_cleanup : (my_dev_id : ℕ) → Lines → Lines
  code_cleanup my_dev_id ls = free_irq sirq my_dev_id ls
