-- ===== src/WorkQueueGlobal/Asleep.antt =====
-- What can come of a sleeping `start` of work_queue_global/code.c, whose `stops` is empty.
use lkb.Common.{◌≡◌, refl, ap, true, false, arith}
use lkb.Common.Steps.{Steps, here, next, Steps-trans}
use lkb.WorkQueueGlobal.{
  awake, asleep, loaded, Work, none, queued, running, set, woke, freed, System, fresh, wake_up,
  Step,
}
use lkb.WorkQueueGlobal.Step.{signal, finish, run, set_condition, wake, free}
use lkb.WorkQueueGlobal.Safety.{IsValid, Steps-IsValid, is_woken}

-- A run without a signal after which the object is freed while `start` is in its wait.
abbrev pub Hazard : System → Type 0
Hazard s =
    (t : System) × Steps Step s t
    × (t.stage ≡ awake)
    × (t.work ≡ freed)
    × (t.live ≡ false)
    × (t.interrupted ≡ s.interrupted)

from_set : (s : System) → s.stage ≡ asleep → s.work ≡ set → Hazard s
from_set s e w = (
  record s { work = freed; stage = wake_up s.stage; live = false },
  next (next here (wake w)) (free refl),
  ap wake_up e,
  refl,
  refl,
  refl,
)

then_Hazard : (s t : System) → Step s t → t.interrupted ≡ s.interrupted → Hazard t → Hazard s
then_Hazard s t st same (u, r, at, done, gone, kept) =
    (u, Steps-trans Step (next here st) r, at, done, gone, cc)

from_running : (s : System) → s.stage ≡ asleep → s.work ≡ running → Hazard s
from_running s e w = then_Hazard s _ (set_condition w) refl (from_set _ e refl)

from_queued : (s : System) → s.stage ≡ asleep → s.work ≡ queued → Hazard s
from_queued s e w = then_Hazard s _ (run w) refl (from_running _ e refl)

asleep-Hazard : (s : System) (w : Work) → s.work ≡ w → s.stage ≡ asleep → IsValid s → Hazard s
asleep-Hazard s none w e v = absurd (ground arith)
asleep-Hazard s queued w e v = from_queued s e w
asleep-Hazard s running w e v = from_running s e w
asleep-Hazard s set w e v = from_set s e w
asleep-Hazard s woke w e v = absurd (ground arith)
asleep-Hazard s freed w e v = absurd (ground arith)

-- In every reachable state in which `start` sleeps, the handler has not woken the queue up and the
-- object is allocated. From there a signal leads to a state in which `start` has returned 0 and the
-- work has come no further; and a run without a signal leads to a state in which the object is
-- freed while `start` is still in its wait, which uses the object.
pub asleep_lem :
    (s : System)
    → Steps Step fresh s
    → s.stage ≡ asleep
    → (is_woken s.work ≡ false)
      × (s.live ≡ true)
      × ((t : System) × Steps Step s t × (t.stage ≡ loaded) × (t.work ≡ s.work))
      × Hazard s
asleep_lem s r e =
    let v = Steps-IsValid s r in
    (
      ground arith,
      ground arith,
      (_, next (next here (signal e)) (finish refl), refl, refl),
      asleep-Hazard s s.work refl e v,
    )
