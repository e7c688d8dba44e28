-- ===== src/PriceAlerts/Spacing.antt =====
-- The triggers of one alert in the course of time, without an edit between.
use nest_backend.Common.{
  ℕ, none, ◌+◌, ◌*◌, ◌≤◌, ◌≡◌, refl, inl, inr, List, [], ◌∷◌, Option, some, true, false,
  if◌then◌else◌, length, arith, Bool-cases,
}
use nest_backend.Common.Text.{Text}
use nest_backend.PriceAlerts.{
  PriceAlert, AlertTriggerMode, once, Surroundings, Event, unchanged, is_active,
  is_cooldown_expired, status_after, mark_triggered, process_alert,
}
use nest_backend.PriceAlerts.Triggers.{is_trigger, process-Cases}

-- At least `minutes` minutes, of 60000 milliseconds, after `last` if there is one.
abbrev pub IsAfter : Option ℕ → ℕ → ℕ → Type 0
IsAfter none minutes t = Unit
IsAfter (some last) minutes t = last + minutes * 60000 ≤ t

-- Each time comes after the cooldown of the one before.
abbrev pub SpacedFrom : Option ℕ → ℕ → List ℕ → Type 0
SpacedFrom last minutes [] = Unit
SpacedFrom last minutes (t ∷ times) = IsAfter last minutes t × SpacedFrom (some t) minutes times

pub cooldown-IsAfter :
    (last : Option ℕ) (minutes t : ℕ)
    → is_cooldown_expired last minutes t ≡ true
    → IsAfter last minutes t
cooldown-IsAfter none minutes t h = tt
cooldown-IsAfter (some last) minutes t h = ground arith

pub IsAfter-cooldown :
    (last : Option ℕ) (minutes t : ℕ)
    → IsAfter last minutes t
    → is_cooldown_expired last minutes t ≡ true
IsAfter-cooldown none minutes t h = refl
IsAfter-cooldown (some last) minutes t h = ground arith

module _ (trim : Text → Text) where
  -- A check reads the alerts that are active.
  abbrev pub check_alert : PriceAlert → Surroundings → PriceAlert × Event
  check_alert row s =
      if is_active row.status then process_alert trim row row s else (row, unchanged)

  -- The times of the checks that trigger the alert.
  abbrev pub trigger_times : PriceAlert → List Surroundings → List ℕ
  trigger_times row [] = []
  trigger_times row (s ∷ checks) =
      let rest = trigger_times (check_alert row s).0 checks in
      if is_trigger (check_alert row s).1 then s.now ∷ rest else rest

  inactive_times :
      (row : PriceAlert) (checks : List Surroundings)
      → is_active row.status ≡ false
      → trigger_times row checks ≡ []
  inactive_times row [] h = refl
  inactive_times row (s ∷ checks) h = rw h (inactive_times row checks h)

  -- The times from a row, whose cooldown and mode stay.
  pub record Spaced (last : Option ℕ) (minutes : ℕ) (mode : AlertTriggerMode) (times : List ℕ)
      : Type 0 where
    pub spaced : SpacedFrom last minutes times
    pub at_most_one : mode ≡ once → length times ≤ 1

  -- In any sequence of checks of one alert without an edit between, whatever the prices and the
  -- times, each trigger comes at least the cooldown, in minutes of 60000 milliseconds, after the
  -- one before, and an alert in mode ONCE is triggered at most once.
  pub trigger_times-Spaced :
      (row : PriceAlert) (checks : List Surroundings)
      → Spaced row.last_triggered_at row.notification_cooldown_minutes row.trigger_mode
          (trigger_times row checks)
  unfolding mark_triggered
  trigger_times-Spaced row [] = record { spaced = tt; at_most_one = λ e. omega arith }
  trigger_times-Spaced row (s ∷ checks) = elim (Bool-cases (is_active row.status)) [
    | inr closed ↦
        rw (closed, inactive_times row checks closed)
          (record { spaced = tt; at_most_one = λ e. omega arith })
    | inl open_row ↦ rw open_row (elim (process-Cases trim row row s) [
      | inr quiet ↦ rw quiet.no_trigger (
          rw (quiet.same_time, quiet.same_cooldown, quiet.same_mode) at
            (trigger_times-Spaced (process_alert trim row row s).0 checks))
      | inl fired ↦
          let next = mark_triggered row fired.price s.now (status_after row.trigger_mode) in
          rw fired.marked (
            after_trigger row s checks fired.price fired.cooled_down
              (trigger_times-Spaced next checks))
    ])
  ]
    where
      after_trigger :
          (row : PriceAlert) (s : Surroundings) (checks : List Surroundings) (price : Text)
          → is_cooldown_expired row.last_triggered_at row.notification_cooldown_minutes s.now ≡ true
          → Spaced (some s.now) row.notification_cooldown_minutes row.trigger_mode (
              trigger_times (mark_triggered row price s.now (status_after row.trigger_mode)) checks)
          → Spaced row.last_triggered_at row.notification_cooldown_minutes row.trigger_mode (
              s.now
              ∷ trigger_times
                  (mark_triggered row price s.now (status_after row.trigger_mode))
                  checks)
      after_trigger row s checks price cool later = record {
        spaced = (
          cooldown-IsAfter row.last_triggered_at row.notification_cooldown_minutes s.now cool,
          later.spaced,
        );
        at_most_one = λ e.
            let none_left =
              inactive_times (mark_triggered row price s.now (status_after row.trigger_mode)) checks
                (rw e refl) in
            rw none_left (omega arith);
      }
