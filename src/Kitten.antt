-- ===== src/Kitten.antt =====
-- container_of/code.c. The stack is its 32-bit words, at addresses that are multiples of 4: an `int` is
-- one, a pointer two, the lower one first, whatever the type it is read at. A `struct kitten` at t has
-- `furry` at t and `name` at `member t`. The variable `tom` stands at `tom`, `pname` at `slot`;
-- `kmalloc` returns p, where 0 is NULL, and a write through it is a fault. An `int` is read as the
-- number of its bits. `new_kitten` is kept in a register.
pub mod Start
mod Tests
use lkb.Common.{
  ℕ, ◌+◌, ◌*◌, ◌/◌, ◌%◌, ◌^◌, ℤ, pos, ◌==◌, if◌then◌else◌, List, [], ◌∷◌, Run, ok, fault,
  out_of_fuel, ◌>>=◌,
}
use lkb.Kernel.ContainerOf.{ContainerOf}

-- What is printed: the text at a pointer, the value of a `furry`.
pub data Line : Type 0 where
  name : List ℕ → Line
  furry : ℕ → Line

-- The words of the stack, and the texts of the heap.
pub record Memory : Type 0 where
  pub word_at : ℕ → ℕ
  pub text_at : ℕ → List ℕ

-- `#define YES 1`
abbrev pub yes_value : ℕ
yes_value = 1

-- "tom_cat"
abbrev pub tom_cat : List ℕ
tom_cat = 116 ∷ 111 ∷ 109 ∷ 95 ∷ 99 ∷ 97 ∷ 116 ∷ []

abbrev put {ℓ} : {A : Type ℓ} → (ℕ → A) → ℕ → A → ℕ → A
put f p v q = if q == p then v else f q

-- Loads and stores of an `int` and of a pointer.
unfoldable pub int_at : (ℕ → ℕ) → ℕ → ℕ
int_at w a = w a

unfoldable pub pointer_at : (ℕ → ℕ) → ℕ → ℕ
pointer_at w a = w a + 2 ^ 32 * w (a + 4)

unfoldable pub set_int : ℕ → ℕ → (ℕ → ℕ) → ℕ → ℕ
set_int a v w = put w a (v % 2 ^ 32)

unfoldable pub set_pointer : ℕ → ℕ → (ℕ → ℕ) → ℕ → ℕ
set_pointer a v w = put (put w a (v % 2 ^ 32)) (a + 4) (v / 2 ^ 32 % 2 ^ 32)

-- `strcpy`
unfoldable pub strcpy : ℕ → List ℕ → Memory → Run Memory
strcpy p s m = if p == 0 then fault else ok (record m { text_at = put m.text_at p s })

module _ (c : ContainerOf) where
  open c use {member, container_of}

  -- `start`: the lines, the memory at its end, and its result.
  unfoldable pub start : (p tom slot : ℕ) → Memory → Run (List Line × Memory × ℤ)
  unfolding strcpy
  start p tom slot m = do
    let w1 = set_int tom yes_value m.word_at
    let w2 = set_pointer (member tom) p w1
    m3 ← strcpy (pointer_at w2 (member tom)) tom_cat (record m { word_at = w2 })
    let name1 = name (m3.text_at (pointer_at m3.word_at (member tom)))
    let w4 = set_pointer slot (pointer_at m3.word_at (member tom)) m3.word_at
    let name2 = name (m3.text_at (pointer_at w4 slot))
    let new_kitten = container_of slot
    let name3 = name (m3.text_at (pointer_at w4 (member new_kitten)))
    let furry0 = furry (int_at w4 tom)
    let furry1 = furry (int_at w4 new_kitten)
    let w5 = set_int new_kitten 100 w4
    let furry2 = furry (int_at w5 new_kitten)
    ok (name1 ∷ name2 ∷ name3 ∷ furry0 ∷ furry1 ∷ furry2 ∷ [], record m3 { word_at = w5 }, pos 0)
