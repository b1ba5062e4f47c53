-- ===== src/Pipe/Scheduler.antt =====
-- crates/toradb-pipe/src/scheduler.rs: which pipelines are due, and the set of those that run.
-- A guard is the id that it holds. The lock is not poisoned.
pub mod Exclusion
mod Tests
use toradb.Prelude.{
  ℕ, ◌-◌, Bool, true, false, not, Option, none, some, List, [], ◌∷◌, map, leb, ◌==◌, if◌then◌else◌,
  Text, text_eq, retain,
}
use toradb.Collections.Keys.{contains, without}
use toradb.Pipe.Model.{Pipeline, Schedule}
use toradb.Pipe.Store.{PipeStore, enabled_scheduled, last_run_started}

-- The set afterwards, if the guard is given.
unfoldable pub claim : Text → List Text → Option (List Text)
unfolding contains
claim id running = if contains id running then none else some (id ∷ running)

-- `Drop for RunGuard`
unfoldable pub release : Text → List Text → List Text
unfolding without
release id running = without id running

module _ {E : Type 0} where
  unfoldable pub is_due : ℕ → PipeStore E → Pipeline E → Bool
  unfolding last_run_started
  is_due now s p =
      let interval : ℕ = elim p.schedule [ none ↦ 0 | some c ↦ c.interval_secs ] in
      if interval == 0 then false else leb interval (now - last_run_started p.id s)

  unfoldable pub due : ℕ → PipeStore E → List Text
  unfolding is_due enabled_scheduled
  due now s = map (λ (p : Pipeline E). p.id) (retain (is_due now s) (enabled_scheduled s))

  -- The ids of one tick that are handed on, while none of them starts to run.
  unfoldable pub fired : ℕ → PipeStore E → List Text → List Text
  unfolding due contains
  fired now s running = retain (λ id. not (contains id running)) (due now s)
