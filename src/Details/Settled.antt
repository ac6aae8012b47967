-- ===== src/Details/Settled.antt =====
-- The drawers: at most one restart is under way, and the news of a success goes away again.
use otel_hive.Base.{
  ℕ, zero, suc, ◌≤◌, arith, ◌≡◌, refl, ap, ◌∙◌, ◌⊎◌, inl, inr, Bool, true, false, not, ◌&&◌, Option,
  none, some, List, [], ◌∷◌, Bool-cases,
}
use otel_hive.Text.{Text, truthy}
use otel_hive.Details.{
  success, RestartMessage, RestartResponse, Drawer, DrawerEvent, given, fetched, press_restart,
  restarted, restart_failed, timer_ends, handle_restart, ended, timer_end, drawer_step, drawer_run,
}

idle : (b c : Bool) → (b && not c) ≡ true → c ≡ false
idle b c h = ground arith

module _ {V : Type 0} where
  pub record IsSettled (s : Drawer V) : Type 0 where
    -- The button is disabled for a restart exactly while one is not answered, and no other is.
    pub one :
        ((s.is_restarting ≡ false) × (s.pending ≡ 0)) ⊎ ((s.is_restarting ≡ true) × (s.pending ≡ 1))
    -- A timer is set that will clear the news of a success.
    pub timed : (m : RestartMessage) → s.restart_message ≡ some m → m.type ≡ success → 1 ≤ s.timers

  handle_restart-IsSettled :
      (id : Option Text) (s : Drawer V)
      → s.is_restarting ≡ false
      → IsSettled s
      → IsSettled (handle_restart id s)
  unfolding handle_restart
  handle_restart-IsSettled none s idle h = h
  handle_restart-IsSettled (some id) s idle h = record {
    one = inr (refl, elim h.one [ inl k ↦ omega (arith, k.1) | inr k ↦ cc ]);
    timed = λ m e k. cc;
  }

  ended-IsSettled :
      (m : RestartMessage) (new_timers p : ℕ) (s : Drawer V)
      → s.pending ≡ p
      → (m.type ≡ success → 1 ≤ new_timers)
      → IsSettled s
      → IsSettled (ended m new_timers p s)
  unfolding ended
  ended-IsSettled m new_timers zero s e t h = h
  ended-IsSettled m new_timers (suc p) s e t h = record {
    one = inl (refl, elim h.one [ inl k ↦ omega (arith, k.1, e) | inr k ↦ omega (arith, k.1, e) ]);
    timed = λ n f k.
        let g : m ≡ n = cc in
        let set : 1 ≤ new_timers = t (ap (λ (r : RestartMessage). r.type) g ∙ k) in
        omega (arith, set);
  }

  timer_end-IsSettled : (t : ℕ) (s : Drawer V) → IsSettled s → IsSettled (timer_end t s)
  unfolding timer_end
  timer_end-IsSettled zero s h = h
  timer_end-IsSettled (suc t) s h = record { one = h.one; timed = λ m e k. cc }

module _ {V : Type 0} (can_restart : Option V → Bool) (summary : RestartResponse → Text)
    (fallback : Text) where
  drawer_step-IsSettled :
      (s : Drawer V) (e : DrawerEvent V)
      → IsSettled s
      → IsSettled (drawer_step can_restart summary fallback s e)
  unfolding drawer_step
  drawer_step-IsSettled s (given id is_open shown) h = record { one = h.one; timed = h.timed }
  drawer_step-IsSettled s (fetched shown) h = record { one = h.one; timed = h.timed }
  drawer_step-IsSettled s press_restart h =
      elim (Bool-cases (can_restart s.shown && not s.is_restarting)) [
        | inl e ↦ rw e (
            handle_restart-IsSettled (truthy s.id) s (idle (can_restart s.shown) s.is_restarting e)
              h)
        | inr e ↦ rw e h
      ]
  drawer_step-IsSettled s (restarted r) h = elim (Bool-cases r.success_) [
    | inl e ↦ rw e (ended-IsSettled _ 1 s.pending s refl (λ k. omega arith) h)
    | inr e ↦ rw e (ended-IsSettled _ 0 s.pending s refl (λ k. cc) h)
  ]
  drawer_step-IsSettled s (restart_failed e) h = ended-IsSettled _ 0 s.pending s refl (λ k. cc) h
  drawer_step-IsSettled s timer_ends h = timer_end-IsSettled s.timers s h

  -- In every order of events, a drawer of an agent or of a group has at most one restart that is not
  -- answered, its button is disabled for it exactly then, and while it shows the news of a success
  -- there is a timer that will clear it.
  pub drawer_run-IsSettled :
      (es : List (DrawerEvent V)) (s : Drawer V)
      → IsSettled s
      → IsSettled (drawer_run can_restart summary fallback s es)
  unfolding drawer_run
  drawer_run-IsSettled [] s h = h
  drawer_run-IsSettled (e ∷ es) s h =
      drawer_run-IsSettled es (drawer_step can_restart summary fallback s e)
        (drawer_step-IsSettled s e h)
