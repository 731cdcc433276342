-- ===== src/Kitten/Start.antt =====
-- What `start` of container_of/code.c prints and writes.
use lkb.Common.{
  Bool-cases, inl, inr, ℕ, ◌+◌, ◌*◌, ◌/◌, ◌%◌, ◌^◌, ◌≤◌, ◌<◌, ◌⊎◌, pos, ◌≡◌, ◌≢◌, refl, ap, true,
  false, ◌∙◌, ◌==◌, if◌then◌else◌, [], ◌∷◌, ok, fault, arith,
}
use lkb.Kernel.ContainerOf.{ContainerOf}
use lkb.Kitten.{
  name, furry, Memory, tom_cat, strcpy, start, int_at, pointer_at, set_int, set_pointer,
}

module _ (a v : ℕ) (w : ℕ → ℕ) where
  pointer_at-set_pointer : v < 2 ^ 64 → pointer_at (set_pointer a v w) a ≡ v
  unfolding pointer_at set_pointer
  pointer_at-set_pointer lt =
      let low : (a == a + 4) ≡ false = ground arith in
      let own : (a == a) ≡ true = ground arith in
      let high : (a + 4 == a + 4) ≡ true = ground arith in rw (low, own, high) (omega arith)

  pointer_at-set_pointer_other :
      (b : ℕ) → b ≢ a → b ≢ a + 4 → b + 4 ≢ a → pointer_at (set_pointer a v w) b ≡ pointer_at w b
  unfolding pointer_at set_pointer
  pointer_at-set_pointer_other b x y z = ground arith

  int_at-set_pointer_other : (b : ℕ) → b ≢ a → b ≢ a + 4 → int_at (set_pointer a v w) b ≡ int_at w b
  unfolding int_at set_pointer
  int_at-set_pointer_other b x y = ground arith

  int_at-set_pointer : int_at (set_pointer a v w) a ≡ v % 2 ^ 32
  unfolding int_at set_pointer
  int_at-set_pointer =
      let low : (a == a + 4) ≡ false = ground arith in
      let own : (a == a) ≡ true = ground arith in rw (low, own) refl

  int_at-set_int : v < 2 ^ 32 → int_at (set_int a v w) a ≡ v
  unfolding int_at set_int
  int_at-set_int lt = let own : (a == a) ≡ true = ground arith in rw own (omega arith)

  int_at-set_int_other : (b : ℕ) → b ≢ a → int_at (set_int a v w) b ≡ int_at w b
  unfolding int_at set_int
  int_at-set_int_other b x = ground arith

  pointer_at-set_int_other :
      (b : ℕ) → b ≢ a → b + 4 ≢ a → pointer_at (set_int a v w) b ≡ pointer_at w b
  unfolding pointer_at set_int
  pointer_at-set_int_other b x y = ground arith

  -- An `int` written over the lower half of a pointer.
  pointer_at-set_int :
      (p : ℕ)
      → v < 2 ^ 32
      → p < 2 ^ 64
      → pointer_at w a ≡ p
      → int_at w a ≡ p % 2 ^ 32
      → pointer_at (set_int a v w) a ≡ p / 2 ^ 32 * 2 ^ 32 + v
  unfolding pointer_at int_at set_int
  pointer_at-set_int p lt small whole low =
      let own : (a == a) ≡ true = ground arith in
      let other : (a + 4 == a) ≡ false = ground arith in rw (own, other) (omega arith)

module _ (p tom slot k : ℕ) (w : ℕ → ℕ) where
  -- The stack before the write through the other kitten, at k.
  abbrev before : ℕ → ℕ
  before = set_pointer slot p (set_pointer (tom + 8) p (set_int tom 1 w))

  other_furry :
      k + 8 ≡ slot
      → tom % 8 ≡ 0
      → slot % 8 ≡ 0
      → (tom + 16 ≤ slot) ⊎ (slot + 8 ≤ tom)
      → int_at before k ≡ (if slot == tom + 16 then p % 2 ^ 32 else int_at w k)
  other_furry back even even' apart =
      let w1 = set_int tom 1 w in
      let w2 = set_pointer (tom + 8) p w1 in
      let past = int_at-set_pointer_other slot p w2 k (omega arith) (omega arith) in
      elim (Bool-cases (slot == tom + 16)) [
        | inl e ↦
            let at : k ≡ tom + 8 = ground arith in
            rw e (past ∙ ap (int_at w2) at ∙ int_at-set_pointer (tom + 8) p w1)
        | inr e ↦
            let off : slot ≢ tom + 16 = ground arith in
            rw e (
              past
              ∙ int_at-set_pointer_other (tom + 8) p w1 k (omega arith) (omega arith)
              ∙ int_at-set_int_other tom 1 w k (omega arith))
      ]

  name_after :
      k + 8 ≡ slot
      → tom % 8 ≡ 0
      → slot % 8 ≡ 0
      → (tom + 16 ≤ slot) ⊎ (slot + 8 ≤ tom)
      → p < 2 ^ 64
      → pointer_at (set_int k 100 before) (tom + 8)
        ≡ (if slot == tom + 16 then p / 2 ^ 32 * 2 ^ 32 + 100 else p)
  name_after back even even' apart small =
      let w1 = set_int tom 1 w in
      let w2 = set_pointer (tom + 8) p w1 in
      let whole : pointer_at before (tom + 8) ≡ p =
        pointer_at-set_pointer_other slot p w2 (tom + 8) (omega arith) (omega arith) (omega arith)
        ∙ pointer_at-set_pointer (tom + 8) p w1 small in
      let low : int_at before (tom + 8) ≡ p % 2 ^ 32 =
        int_at-set_pointer_other slot p w2 (tom + 8) (omega arith) (omega arith)
        ∙ int_at-set_pointer (tom + 8) p w1 in
      elim (Bool-cases (slot == tom + 16)) [
        | inl e ↦
            let at : k ≡ tom + 8 = ground arith in
            rw e (
              ap (λ a. pointer_at (set_int a 100 before) (tom + 8)) at
              ∙ pointer_at-set_int (tom + 8) 100 before p (omega arith) small whole low)
        | inr e ↦
            let off : slot ≢ tom + 16 = ground arith in
            rw e
              (pointer_at-set_int_other k 100 before (tom + 8) (omega arith) (omega arith) ∙ whole)
      ]

module _ (c : ContainerOf) where
  open c use {member, container_of}

  -- Where `name` is eight bytes into the struct, the addresses are multiples of 8, and `tom` and
  -- `pname` do not overlap: `start` prints the name three times, though the last is read through a
  -- kitten that does not exist; it prints the `furry` of `tom`, then the word eight bytes before
  -- `pname`, then 100, and writes 100 over that word. If `pname` stands right behind `tom`, that
  -- word is the lower half of `tom.name`, which is then 100; else `tom.name` stays as it is. The
  -- `furry` of `tom`, `pname` and the other words stay what they were before the write. Where
  -- `kmalloc` fails, `start` writes through NULL.
  pub start_writes :
      (p tom slot : ℕ) (m : Memory)
      → ((t : ℕ) → member t ≡ t + 8)
      → container_of slot + 8 ≡ slot
      → tom % 8 ≡ 0
      → slot % 8 ≡ 0
      → (tom + 16 ≤ slot) ⊎ (slot + 8 ≤ tom)
      → p < 2 ^ 64
      → let k = container_of slot in
        (p ≢ 0
          → (r : Memory) × (start c p tom slot m
              ≡ ok (
                name tom_cat
                    ∷ name tom_cat
                    ∷ name tom_cat
                    ∷ furry 1
                    ∷ furry (if slot == tom + 16 then p % 2 ^ 32 else int_at m.word_at k)
                    ∷ furry 100
                    ∷ [],
                r,
                pos 0,
              ))
            × (int_at r.word_at tom ≡ 1)
            × (int_at r.word_at k ≡ 100)
            × (pointer_at r.word_at slot ≡ p)
            × (pointer_at r.word_at (member tom)
                ≡ (if slot == tom + 16 then p / 2 ^ 32 * 2 ^ 32 + 100 else p))
            × ((q : ℕ)
                → q ≢ tom
                → q ≢ tom + 8
                → q ≢ tom + 12
                → q ≢ slot
                → q ≢ slot + 4
                → q ≢ k
                → int_at r.word_at q ≡ int_at m.word_at q))
        × (p ≡ 0 → start c p tom slot m ≡ fault)
  unfolding start strcpy
  start_writes p tom slot m eight back even even' apart small =
      let k = container_of slot in
      let w1 = set_int tom 1 m.word_at in
      let w2 = set_pointer (tom + 8) p w1 in
      let w4 = set_pointer slot p w2 in
      let w5 = set_int k 100 w4 in
      let e1 = pointer_at-set_pointer (tom + 8) p w1 small in
      let e2 = pointer_at-set_pointer slot p w2 small in
      let e3 : member k ≡ slot = eight k ∙ back in
      let e4 : int_at w4 tom ≡ 1 =
        int_at-set_pointer_other slot p w2 tom (omega arith) (omega arith)
        ∙ int_at-set_pointer_other (tom + 8) p w1 tom (omega arith) (omega arith)
        ∙ int_at-set_int tom 1 m.word_at (omega arith) in
      let e5 : int_at w4 k ≡ (if slot == tom + 16 then p % 2 ^ 32 else int_at m.word_at k) =
        other_furry p tom slot k m.word_at back even even' apart in
      let e6 = int_at-set_int k 100 w4 (omega arith) in
      (
        λ given.
            let null : (p == 0) ≡ false = ground arith in
            let own : (p == p) ≡ true = ground arith in
            (
              record { word_at = w5; text_at = λ q. if q == p then tom_cat else m.text_at q },
              rw (eight tom, e1, null) (rw (e1, e2, e3, e2, own, e4, e5, e6) refl),
              int_at-set_int_other k 100 w4 tom (omega arith) ∙ e4,
              e6,
              pointer_at-set_int_other k 100 w4 slot (omega arith) (omega arith) ∙ e2,
              ap (pointer_at w5) (eight tom)
                  ∙ name_after p tom slot k m.word_at back even even' apart small,
              λ q a b d e f g.
                  int_at-set_int_other k 100 w4 q g
                  ∙ int_at-set_pointer_other slot p w2 q e f
                  ∙ int_at-set_pointer_other (tom + 8) p w1 q b (omega arith)
                  ∙ int_at-set_int_other tom 1 m.word_at q a,
            ),
        λ null. let test : (p == 0) ≡ true = ground arith in rw (eight tom, e1, test) refl,
      )
