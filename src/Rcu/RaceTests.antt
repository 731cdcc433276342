-- ===== src/Rcu/RaceTests.antt =====
-- The deleting loop of rcu/code.c on a list of three objects whose entries stand eight bytes into
-- them.
use lkb.Common.{ℕ, ◌≡◌, refl, [], ◌∷◌, true, false, ◌==◌, if◌then◌else◌, some, has, arith}
use lkb.Common.Steps.{Steps}
use lkb.Kernel.Examples.{layout}
use lkb.Rcu.{State, for_each, delete}
use lkb.Rcu.Links.{Links, links}
use lkb.Rcu.Race.{Race, Round, Step, arrived, race_lem}

-- The objects 200, 300 and 100 hold 10, 20 and 0.
abbrev values : ℕ → ℕ
values q = if q == 300 then 20 else if q == 200 then 10 else 0

abbrev three : Links
three = record { listed = 208 ∷ 308 ∷ 108 ∷ []; fit = refl; stale = λ n. 0 }

abbrev before : State layout links
before = record {
  list = three;
  data_of = values;
  flag = false;
  queued = [];
  live = 100 ∷ 200 ∷ 300 ∷ [];
  log = [];
  held = 1;
}

race_lem_example :
    ((fuel : ℕ) (t : State layout links)
      → for_each layout links (delete layout links) fuel 208 before ≡ some t
      → Steps
          (Round layout links layout)
          (arrived layout links layout 208 before)
          (arrived layout links layout 0 t))
    × ((r : Race layout links layout) × Steps
          (Step layout links layout)
          (arrived layout links layout 208 before)
          r
        × (r.at ≡ 308)
        × (r.ran ≡ true)
        × (r.state.live ≡ 100 ∷ 200 ∷ [])
        × (has 300 r.state.live ≡ false))
race_lem_example =
    race_lem layout links layout 300 (208 ∷ []) (108 ∷ []) before refl (omega arith, tt) refl
      (omega arith) refl (refl, (refl, (refl, tt))) refl
