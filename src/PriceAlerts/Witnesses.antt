-- ===== src/PriceAlerts/Witnesses.antt =====
-- The theorems about price alerts at concrete inputs, and runs of them.
use nest_backend.Common.{ℕ, ◌≡◌, refl, [], ◌∷◌, none, some, true}
use nest_backend.Common.Int.{pos, negsuc}
use nest_backend.Common.Text.{Text, codes}
use nest_backend.PriceAlerts.{
  PriceAlert, sell, once, repeat, active, email, Surroundings, process_alert, parse_price,
  mark_triggered, has_crossed,
}
use nest_backend.PriceAlerts.Triggers.{is_trigger}
use nest_backend.PriceAlerts.Firing.{FiresExactly, process_alert-FiresExactly}
use nest_backend.PriceAlerts.Spacing.{Spaced, trigger_times, trigger_times-Spaced}

abbrev as_written : Text → Text
as_written text = text

abbrev alert : PriceAlert
alert = record {
  direction = sell;
  target_price = codes "100";
  trigger_mode = once;
  status = active;
  expires_at = none;
  notification_channels = email ∷ [];
  notification_cooldown_minutes = 1;
  last_checked_price = some (codes "99.5");
  last_triggered_at = none;
  triggered_count = 0;
}

abbrev price_at : ℕ → Text → Surroundings
price_at now price = record {
  now = now;
  coin_is_active = true;
  current_price = some price;
  recipient_email = some (codes "a@b.c");
  delivers = true;
}

process_alert-FiresExactly_example :
    FiresExactly alert alert
      (price_at 500 (codes "1e2"))
      (record { coefficient = pos 995; scale = 1 })
      (record { coefficient = pos 100; scale = 0 })
      (record { coefficient = pos 100; scale = 0 })
      (codes "1e2")
      (process_alert as_written alert alert (price_at 500 (codes "1e2")))
unfolding parse_price
process_alert-FiresExactly_example =
    process_alert-FiresExactly as_written alert alert (price_at 500 (codes "1e2")) (codes "99.5")
      (codes "1e2") (record { coefficient = pos 995; scale = 1 })
      (record { coefficient = pos 100; scale = 0 }) (record { coefficient = pos 100; scale = 0 })
      refl refl refl refl refl

crossing_run :
    is_trigger (process_alert as_written alert alert (price_at 500 (codes "1e2"))).1 ≡ true
unfolding process_alert parse_price
crossing_run = refl

trigger_times-Spaced_example : Spaced as_written none 1 repeat (
    trigger_times as_written
      (record alert { trigger_mode = repeat })
      (price_at 500 (codes "100") ∷ price_at 600 (codes "99") ∷ price_at 60500 (codes "101") ∷ []))
trigger_times-Spaced_example =
    trigger_times-Spaced as_written (record alert { trigger_mode = repeat })
      (price_at 500 (codes "100") ∷ price_at 600 (codes "99") ∷ price_at 60500 (codes "101") ∷ [])

repeat_run :
    trigger_times as_written
      (record alert { trigger_mode = repeat })
      (price_at 500 (codes "100") ∷ price_at 600 (codes "99") ∷ price_at 60500 (codes "101") ∷ [])
    ≡ 500 ∷ 60500 ∷ []
unfolding process_alert parse_price mark_triggered
repeat_run = refl

parse_run :
    parse_price as_written (codes "-1.25E-3")
    ≡ some (record { coefficient = negsuc 124; scale = 5 })
unfolding parse_price
parse_run = refl

bad_price_run : has_crossed as_written sell (some (codes "1,5")) (codes "2") (codes "3") ≡ none
unfolding parse_price
bad_price_run = refl
