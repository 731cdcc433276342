-- ===== src/Kernel/IrqApi.antt =====
-- The shared interrupt lines of linux/interrupt.h behind their documented behaviour: the `dev_id`
-- of each handler that is installed on a line, in the order of their calls.
use lkb.Common.{ℕ, ℤ, pos, ◌≡◌, ◌≢◌, List, [], ◌∷◌, ◌++◌, ◌||◌, Bool, false, erase}
use lkb.Common.Events.{Io}

pub record IrqApi : Type 1 where
  pub Lines : Type 0
  pub on_line : Lines → ℕ → List ℕ
  -- 0, or a negative error.
  pub request_irq : (irq dev_id : ℕ) → Lines → ℤ × Lines
  pub free_irq : (irq dev_id : ℕ) → Lines → Lines
  pub on_line-request :
      (irq dev_id : ℕ) (ls : Lines)
      → (request_irq irq dev_id ls).0 ≡ pos 0
      → on_line (request_irq irq dev_id ls).1 irq ≡ on_line ls irq ++ dev_id ∷ []
  pub on_line-request_failed :
      (irq dev_id : ℕ) (ls : Lines) (n : ℕ)
      → (request_irq irq dev_id ls).0 ≢ pos 0
      → on_line (request_irq irq dev_id ls).1 n ≡ on_line ls n
  pub on_line-request_other :
      (irq dev_id : ℕ) (ls : Lines) (n : ℕ)
      → n ≢ irq
      → on_line (request_irq irq dev_id ls).1 n ≡ on_line ls n
  pub on_line-free :
      (irq dev_id : ℕ) (ls : Lines)
      → on_line (free_irq irq dev_id ls) irq ≡ erase dev_id (on_line ls irq)
  pub on_line-free_other :
      (irq dev_id : ℕ) (ls : Lines) (n : ℕ)
      → n ≢ irq
      → on_line (free_irq irq dev_id ls) n ≡ on_line ls n
  -- An interrupt on a line with these devices calls the handler of each: what they do, and whether
  -- one of them has handled it.
  pub handle_irq : {E : Type 0} → (handler : ℕ → Io E Bool) → List ℕ → Io E Bool
  pub handle_irq-nil : {E : Type 0} (handler : ℕ → Io E Bool) → handle_irq handler [] ≡ ([], false)
  pub handle_irq-cons :
      {E : Type 0} (handler : ℕ → Io E Bool) (d : ℕ) (ds : List ℕ)
      → handle_irq handler (d ∷ ds)
        ≡ ((handler d).0 ++ (handle_irq handler ds).0, (handler d).1 || (handle_irq handler ds).1)
