-- ===== src/WorkQueueDedicated/Queue.antt =====
-- work_queue_dedicated/code.c as a whole: `start`, `stops`, the interrupts and the runs of the work
-- handler, a step at a time, where no interrupt comes before `start` has ended, and neither an
-- interrupt nor the end of `stops` where `create_singlethread_workqueue` has returned NULL. What the queue does
-- is its documented behaviour: work that is pending is not queued again, it is no longer pending
-- when its handler starts, one worker runs one handler at a time, and the flush waits until nothing
-- is pending. The steps of an interrupt and of a run change different fields, except for `pending`,
-- so a run is one step.
pub mod Unload
use lkb.Common.{
  ℕ, suc, ◌+◌, ◌*◌, ◌≤◌, ◌≡◌, ◌≢◌, inl, inr, refl, Bool, true, false, [], length, has, Bool-cases,
  if◌then◌else◌, arith,
}
use lkb.Common.Steps.{Steps, here, next, Steps-inv}
use lkb.Kernel.ContainerOf.{ContainerOf}
use lkb.Kernel.ListHead.{ListHead}
use lkb.WorkQueueDedicated.{State, work_handler, add_node, flush_list}
use lkb.WorkQueueDedicated.Handler.{IsValid, work_handler-IsValid}
use lkb.WorkQueueDedicated.Account.{
  is_failed, is_passed, is_flush, total, Balances, work_handler-Balances,
}
use lkb.WorkQueueDedicated.Loading.{
  loaded, line_freed, stopped, Driver, fresh, my_interrupt, Step, request_fails, request, create,
  init_work, free_irq, destroy, interrupt, Agrees, Agrees-at, Step-Agrees,
}

-- After the last step of `stops` there is none.
no-Step : {d e : Driver} → Step d e → d.stage ≡ stopped → d.line_on ≡ false → ⊥
no-Step (request_fails k) z off = cc
no-Step (request k) z off = cc
no-Step (create w k) z off = cc
no-Step (init_work k) z off = cc
no-Step (free_irq k) z off = cc
no-Step (destroy k) z off = cc
no-Step (interrupt on) z off = cc

module _ (c : ContainerOf) (l : ListHead) where
  -- The driver, what the handler keeps, whether the work is pending, how often its handler has run.
  pub record System : Type 0 where
    pub driver : Driver
    pub state : State c l
    pub pending : Bool
    pub runs : ℕ

  -- The globals before the load; h is the empty list.
  abbrev pub boot : (f value : ℕ → ℕ) (h : l.Store) → System
  boot f value h = record {
    driver = fresh;
    state = record {
      moving_val = 0;
      f = f;
      value = value;
      head = h;
      live = [];
      log = [];
      held = 0;
    };
    pending = false;
    runs = 0;
  }

  pub data Move (x : System) : System → Type 0 where
    -- A step of `start` or `stops`, but for the last.
    drive :
        {d : Driver}
        → Step x.driver d
        → d.calls ≡ x.driver.calls
        → d.stage ≢ stopped
        → Move x (record x { driver = d })
    -- `flush_workqueue` has returned, and the queue is destroyed.
    stop :
        x.driver.stage ≡ line_freed
        → x.driver.wq ≢ 0
        → x.pending ≡ false
        → Move x (record x { driver = record x.driver { stage = stopped } })
    interrupted :
        x.driver.stage ≡ loaded
        → x.driver.wq ≢ 0
        → x.driver.line_on ≡ true
        → Move x (record x { driver = my_interrupt x.driver; pending = true })
    -- A run in which `kmalloc` would return p, which is not allocated.
    handled :
        (p : ℕ)
        → x.pending ≡ true
        → has p x.state.live ≡ false
        → Move x
            (record x { state = work_handler c l p x.state; pending = false; runs = suc x.runs })

  pub record Sound (x : System) : Type 0 where
    pub agrees : Agrees x.driver.stage x.driver
    pub valid : IsValid c l x.state
    pub balances : Balances c l x.runs x.state
    pub null : has 0 x.state.live ≡ false
    pub asked : x.runs + (if x.pending then 1 else 0) ≤ length x.driver.calls
    pub idle : x.driver.stage ≡ stopped → x.pending ≡ false

  boot-Sound : (f value : ℕ → ℕ) (h : l.Store) → l.entries h ≡ [] → Sound (boot f value h)
  boot-Sound f value h empty = record {
    agrees = (refl, refl, refl);
    valid = record {
      bound = omega arith;
      listed = empty;
      apart = λ i j a b e. elim a [ ];
      valued = λ i lt. elim lt [ ];
      allocated = λ i lt. elim lt [ ];
    };
    balances = record { runs = refl; added = omega arith; kept = refl; locked = refl };
    null = refl;
    asked = omega arith;
    idle = λ e. refl;
  }

  -- NULL never counts as allocated.
  null_kept :
      (p : ℕ) (s : State c l) → has 0 s.live ≡ false → has 0 (work_handler c l p s).live ≡ false
  unfolding work_handler add_node flush_list
  null_kept p s h = ground arith

  Move-Sound : (x y : System) → Sound x → Move x y → Sound y
  unfolding my_interrupt
  Move-Sound x _ v (drive st same other) = record {
    agrees = Step-Agrees st v.agrees;
    valid = v.valid;
    balances = v.balances;
    null = v.null;
    asked = rw same v.asked;
    idle = λ e. elim (other e) [ ];
  }
  Move-Sound x _ v (stop e made idle) = record {
    agrees = Agrees-at x.driver e v.agrees;
    valid = v.valid;
    balances = v.balances;
    null = v.null;
    asked = v.asked;
    idle = λ z. idle;
  }
  Move-Sound x _ v (interrupted e made on) = record {
    agrees = Step-Agrees (interrupt on) v.agrees;
    valid = v.valid;
    balances = v.balances;
    null = v.null;
    asked = ground (arith, v.asked);
    idle = λ z. cc;
  }
  Move-Sound x _ v (handled p some_work out) = record {
    agrees = v.agrees;
    valid = work_handler-IsValid c l p x.state v.valid out;
    balances = work_handler-Balances c l p x.runs x.state v.valid v.balances;
    null = null_kept p x.state v.null;
    asked = ground (arith, v.asked);
    idle = λ z. refl;
  }

  pub Steps-Sound :
      (f value : ℕ → ℕ) (h : l.Store) (x : System)
      → l.entries h ≡ []
      → Steps Move (boot f value h) x
      → Sound x
  Steps-Sound f value h x empty r =
      Steps-inv Move Sound Move-Sound (boot f value h) x (boot-Sound f value h empty) r

  -- Once the module is unloaded nothing happens.
  rests : (x y : System) → Sound x → x.driver.stage ≡ stopped → Move x y → ⊥
  rests x y v e (drive st same other) = no-Step st e (Agrees-at x.driver e v.agrees).0
  rests x y v e (stop k made idle) = cc
  rests x y v e (interrupted k made on) = cc
  rests x y v e (handled p some_work out) = ground (arith, v.idle e)

  -- In every state that the module can reach from an empty list without an interrupt before `start`
  -- has ended, and without an interrupt or the end of `stops` where its queue could not be created, the
  -- list is as the handler keeps it. The handler has run once for each failed
  -- `kmalloc`, each object that it has added and each flush that it has printed. It has added 14
  -- objects for each flush and the `moving_val` of now, and all of them are still allocated. It has
  -- run, or is pending, at most once for each interrupt; and once the module is unloaded, no work
  -- is pending and nothing more happens.
  pub account_lem :
      (f value : ℕ → ℕ) (h : l.Store) (x : System)
      → l.entries h ≡ []
      → Steps Move (boot f value h) x
      → let passed = total is_passed x.state.log in
        let flushes = total is_flush x.state.log in
        IsValid c l x.state
        × (x.runs ≡ total is_failed x.state.log + passed + flushes)
        × (passed ≡ 14 * flushes + x.state.moving_val)
        × (length x.state.live ≡ passed)
        × (x.runs + (if x.pending then 1 else 0) ≤ length x.driver.calls)
        × (x.driver.stage ≡ stopped → (x.pending ≡ false) × ((y : System) → ¬ Move x y))
  account_lem f value h x empty r =
      let v = Steps-Sound f value h x empty r in
      let b = v.balances in
      (v.valid, b.runs, b.added, b.kept, v.asked, λ e. (v.idle e, λ y m. rests x y v e m))
