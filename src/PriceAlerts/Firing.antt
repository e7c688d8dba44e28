-- ===== src/PriceAlerts/Firing.antt =====
-- What processAlert does with a price that can be read: exactly when it triggers, and what it writes.
use mathlib.Core.Option.{some_inj}
use nest_backend.Common.{
  ℕ, ◌+◌, ◌≤◌, ◌≡◌, ◌≢◌, ◌∙◌, refl, sym, ap, ◌⊎◌, inl, inr, arith, ◌↔◌, List, [], ◌∷◌, Option, none,
  some, true, false, any, ◌&&◌,
}
use nest_backend.Common.Text.{Text}
use nest_backend.PriceAlerts.{
  PriceAlert, ParsedPrice, AlertTriggerMode, once, repeat, AlertStatus, triggered, active, expired,
  cancelled, NotificationChannel, email, sms, Surroundings, Event, parse_price, process_alert,
  is_past, is_email, is_missing, is_active, has_crossed, crosses, compare_parsed, triggers,
  mark_triggered, status_after,
}
use nest_backend.PriceAlerts.Crossing.{Crosses, crosses-Crosses}
use nest_backend.PriceAlerts.Triggers.{is_trigger, Triggered, process-Cases, process_triggers}
use nest_backend.PriceAlerts.Spacing.{IsAfter, cooldown-IsAfter, IsAfter-cooldown}

-- An alert without a date of expiry lasts for ever.
abbrev pub Lasts : Option ℕ → ℕ → Type 0
Lasts none now = Unit
Lasts (some expires_at) now = now ≤ expires_at

-- Channels that need no address.
abbrev pub OnlySms : List NotificationChannel → Type 0
OnlySms [] = Unit
OnlySms (channel ∷ channels) = (channel ≡ sms) × OnlySms channels

-- An owner without an address is reached by text messages only.
abbrev pub Reachable : Option Text → List NotificationChannel → Type 0
Reachable none channels = OnlySms channels
Reachable (some address) channels = Unit

-- When the check of an alert with these prices triggers it.
pub record Fires (alert row : PriceAlert) (s : Surroundings) (previous current target : ParsedPrice)
    : Type 0 where
  pub crossed : Crosses alert.direction previous current target
  pub lasts : Lasts alert.expires_at s.now
  pub coin_active : s.coin_is_active ≡ true
  pub cooled_down : IsAfter alert.last_triggered_at alert.notification_cooldown_minutes s.now
  pub reachable : Reachable s.recipient_email alert.notification_channels
  pub delivered : s.delivers ≡ true
  pub was_active : row.status ≡ active

-- The row after a trigger at a price and a time, in a mode.
pub record Marked (row out : PriceAlert) (mode : AlertTriggerMode) (price : Text) (now : ℕ)
    : Type 0 where
  pub price_kept : out.last_checked_price ≡ some price
  pub time_kept : out.last_triggered_at ≡ some now
  pub counted : out.triggered_count ≡ row.triggered_count + 1
  pub status_kept :
      ((mode ≡ once) × (out.status ≡ triggered)) ⊎ ((mode ≡ repeat) × (out.status ≡ active))

-- A check either triggers the alert, or neither counts a trigger nor sets its time.
abbrev pub FiresExactly :
    PriceAlert
    → PriceAlert
    → Surroundings
    → ParsedPrice
    → ParsedPrice
    → ParsedPrice
    → Text
    → PriceAlert × Event
    → Type 0
FiresExactly alert row s previous current target price out =
    (Fires alert row s previous current target
      × (out.1 ≡ triggers)
      × Marked row out.0 alert.trigger_mode price s.now)
    ⊎ (¬ Fires alert row s previous current target
        × (out.1 ≢ triggers)
        × (out.0.last_triggered_at ≡ row.last_triggered_at)
        × (out.0.triggered_count ≡ row.triggered_count))

OnlySms-any :
    (channels : List NotificationChannel) → any is_email channels ≡ false ↔ OnlySms channels
OnlySms-any [] = (λ e. tt, λ h. refl)
OnlySms-any (email ∷ channels) = (λ e. absurd (cc), λ h. absurd (let same = h.0 in cc))
OnlySms-any (sms ∷ channels) =
    let rest = OnlySms-any channels in (λ e. (refl, rest.0 e), λ h. rest.1 h.1)

Reachable-any :
    (recipient : Option Text) (channels : List NotificationChannel)
    → (is_missing recipient && any is_email channels) ≡ false ↔ Reachable recipient channels
Reachable-any none channels = OnlySms-any channels
Reachable-any (some address) channels = (λ e. tt, λ h. refl)

Lasts-is_past :
    (expires_at : Option ℕ) (now : ℕ) → is_past expires_at now ≡ false ↔ Lasts expires_at now
Lasts-is_past none now = (λ e. tt, λ h. refl)
Lasts-is_past (some expires_at) now = ground arith

active_of : (status : AlertStatus) → is_active status ≡ true ↔ status ≡ active
active_of active = (λ e. refl, λ e. refl)
active_of triggered = (λ e. absurd (cc), λ e. absurd (cc))
active_of expired = (λ e. absurd (cc), λ e. absurd (cc))
active_of cancelled = (λ e. absurd (cc), λ e. absurd (cc))

status_kept :
    (mode : AlertTriggerMode)
    → ((mode ≡ once) × (status_after mode ≡ triggered))
      ⊎ ((mode ≡ repeat) × (status_after mode ≡ active))
status_kept once = inl (refl, refl)
status_kept repeat = inr (refl, refl)

mark-Marked :
    (row : PriceAlert) (mode : AlertTriggerMode) (price : Text) (now : ℕ)
    → Marked row (mark_triggered row price now (status_after mode)) mode price now
unfolding mark_triggered
mark-Marked row mode price now = record {
  price_kept = refl;
  time_kept = refl;
  counted = refl;
  status_kept = status_kept mode;
}

not_triggers : (event : Event) → is_trigger event ≡ false → event ≢ triggers
not_triggers event h e = ground (arith, h, ap is_trigger e)

module _ (trim : Text → Text) (alert row : PriceAlert) (s : Surroundings) where
  has_crossed_parsed :
      (last price : Text) (previous current target : ParsedPrice)
      → alert.last_checked_price ≡ some last
      → parse_price trim last ≡ some previous
      → parse_price trim price ≡ some current
      → parse_price trim alert.target_price ≡ some target
      → has_crossed trim alert.direction alert.last_checked_price price alert.target_price
        ≡ some (
            crosses alert.direction
              (compare_parsed previous target)
              (compare_parsed current target))
  has_crossed_parsed last price previous current target checked parses_last parses_price
        parses_target =
      rw (checked, parses_last, parses_price, parses_target) refl

  fired_of :
      {price : Text} {previous current target : ParsedPrice}
      → s.current_price ≡ some price
      → has_crossed trim alert.direction alert.last_checked_price price alert.target_price
        ≡ some (
            crosses alert.direction
              (compare_parsed previous target)
              (compare_parsed current target))
      → Triggered trim alert row s (process_alert trim alert row s)
      → Fires alert row s previous current target
        × (process_alert trim alert row s
            ≡ (mark_triggered row price s.now (status_after alert.trigger_mode), triggers))
  fired_of {price} {previous} {current} {target} priced crossing fired =
      let same : fired.price ≡ price = some_inj.0 (sym fired.priced ∙ priced) in
      let crossed = rw same at fired.crossed in
      (
        record {
          crossed =
              (crosses-Crosses alert.direction previous current target).0
                (some_inj.0 (sym crossing ∙ crossed));
          lasts = (Lasts-is_past alert.expires_at s.now).0 fired.unexpired;
          coin_active = fired.coin_active;
          cooled_down =
              cooldown-IsAfter alert.last_triggered_at alert.notification_cooldown_minutes s.now
                fired.cooled_down;
          reachable =
              (Reachable-any s.recipient_email alert.notification_channels).0 fired.reachable;
          delivered = fired.delivered;
          was_active = (active_of row.status).0 fired.was_active;
        },
        rw same at fired.marked,
      )

  Fires-triggers :
      {price : Text} {previous current target : ParsedPrice}
      → s.current_price ≡ some price
      → has_crossed trim alert.direction alert.last_checked_price price alert.target_price
        ≡ some (
            crosses alert.direction
              (compare_parsed previous target)
              (compare_parsed current target))
      → Fires alert row s previous current target
      → process_alert trim alert row s
        ≡ (mark_triggered row price s.now (status_after alert.trigger_mode), triggers)
  Fires-triggers {price} {previous} {current} {target} priced crossing fires =
      process_triggers trim alert row s price priced
        (crossing
          ∙ ap some ((crosses-Crosses alert.direction previous current target).1 fires.crossed))
        ((Lasts-is_past alert.expires_at s.now).1 fires.lasts) fires.coin_active
        (IsAfter-cooldown alert.last_triggered_at alert.notification_cooldown_minutes s.now
          fires.cooled_down)
        ((Reachable-any s.recipient_email alert.notification_channels).1 fires.reachable)
        fires.delivered ((active_of row.status).1 fires.was_active)

  -- For an alert with a last checked price, a coin with a price, and three prices that can be
  -- read, processAlert triggers the alert exactly when the price goes from below the target to it
  -- or over it (to sell; to buy, from above it to it or under it), the date of expiry is not over,
  -- the coin is active, at least the cooldown in minutes of 60000 milliseconds has passed since
  -- the last trigger, the channels are text messages only or an address is there, the
  -- notifications are handed over, and the stored row is active. It then writes the price, the
  -- time, one more trigger, and the status TRIGGERED in mode ONCE and ACTIVE in mode REPEAT;
  -- otherwise it leaves the count of the triggers and the time of the last one.
  pub process_alert-FiresExactly :
      (last price : Text) (previous current target : ParsedPrice)
      → alert.last_checked_price ≡ some last
      → s.current_price ≡ some price
      → parse_price trim last ≡ some previous
      → parse_price trim price ≡ some current
      → parse_price trim alert.target_price ≡ some target
      → FiresExactly alert row s previous current target price (process_alert trim alert row s)
  process_alert-FiresExactly last price previous current target checked priced parses_last
        parses_price parses_target =
      let crossing =
        has_crossed_parsed last price previous current target checked parses_last parses_price
          parses_target in
      elim (process-Cases trim alert row s) [
        | inl fired ↦
            let (fires, marked) = fired_of priced crossing fired in
            inl (fires, rw marked refl, rw marked (mark-Marked row alert.trigger_mode price s.now))
        | inr quiet ↦ inr (
          (λ fires. absurd (
              let e =
                ap (λ (out : PriceAlert × Event). is_trigger out.1)
                  (Fires-triggers priced crossing fires) in
              let no = quiet.no_trigger in cc)),
          not_triggers (process_alert trim alert row s).1 quiet.no_trigger,
          quiet.same_time,
          quiet.same_count,
        )
      ]
