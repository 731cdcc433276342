-- ===== src/Common/Events.antt =====
-- Straight-line code as the events it causes, in order, and its result.
use mathlib.Core.List.{List, [], ◌∷◌, ◌++◌}

abbrev pub Io : Type 0 → Type 0 → Type 0
Io E A = List E × A

infixl 5 ◌>>=◌ ◌>>◌
abbrev pub ◌>>=◌ : {E A B : Type 0} → Io E A → (A → Io E B) → Io E B
m >>= f = let r = f m.1 in (m.0 ++ r.0, r.1)

abbrev pub ◌>>◌ : {E B : Type 0} → Io E (Unit {0}) → Io E B → Io E B
m >> n = (m.0 ++ n.0, n.1)

abbrev pub emit : {E : Type 0} → E → Io E (Unit {0})
emit e = (e ∷ [], tt)

abbrev pub return : {E A : Type 0} → A → Io E A
return a = ([], a)
