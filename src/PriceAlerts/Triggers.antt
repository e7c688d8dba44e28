-- ===== src/PriceAlerts/Triggers.antt =====
-- The ways through the check of one alert.
use nest_backend.Common.{
  ◌≡◌, refl, ◌∙◌, ap, ◌⊎◌, inl, inr, Option, none, some, Bool, true, false, not, ◌&&◌,
  if◌then◌else◌, any, Bool-cases, Option-cases,
}
use nest_backend.Common.Text.{Text}
use nest_backend.PriceAlerts.{
  PriceAlert, Surroundings, Event, expires, unchanged, triggers, skips, is_active, is_past,
  is_cooldown_expired, is_missing, is_email, has_crossed, status_after, mark_triggered,
  update_last_checked_price, trigger, after_crossing, at_price, process_alert, expired,
  coin_inactive, processing_failed, state_changed,
}

abbrev pub is_trigger : Event → Bool
is_trigger triggers = true
is_trigger expires = false
is_trigger unchanged = false
is_trigger (skips reason) = false

module _ (trim : Text → Text) where
  -- What holds when an alert is triggered.
  pub record Triggered (alert row : PriceAlert) (s : Surroundings) (out : PriceAlert × Event)
      : Type 0 where
    pub price : Text
    pub priced : s.current_price ≡ some price
    pub crossed :
        has_crossed trim alert.direction alert.last_checked_price price alert.target_price
        ≡ some true
    pub unexpired : is_past alert.expires_at s.now ≡ false
    pub coin_active : s.coin_is_active ≡ true
    pub cooled_down :
        is_cooldown_expired alert.last_triggered_at alert.notification_cooldown_minutes s.now ≡ true
    pub reachable :
        (is_missing s.recipient_email && any is_email alert.notification_channels) ≡ false
    pub delivered : s.delivers ≡ true
    pub was_active : is_active row.status ≡ true
    pub marked : out ≡ (mark_triggered row price s.now (status_after alert.trigger_mode), triggers)

  -- The parts of a row that only a trigger or its user changes.
  pub record Quiet (row : PriceAlert) (out : PriceAlert × Event) : Type 0 where
    pub no_trigger : is_trigger out.1 ≡ false
    pub same_time : out.0.last_triggered_at ≡ row.last_triggered_at
    pub same_cooldown : out.0.notification_cooldown_minutes ≡ row.notification_cooldown_minutes
    pub same_mode : out.0.trigger_mode ≡ row.trigger_mode
    pub same_count : out.0.triggered_count ≡ row.triggered_count

  Quiet-row : (row : PriceAlert) (event : Event) → is_trigger event ≡ false → Quiet row (row, event)
  Quiet-row row event h = record {
    no_trigger = h;
    same_time = refl;
    same_cooldown = refl;
    same_mode = refl;
    same_count = refl;
  }

  Quiet-price :
      (row : PriceAlert) (price : Text) (event : Event)
      → is_trigger event ≡ false
      → Quiet row (update_last_checked_price row price, event)
  Quiet-price row price event h = elim (Bool-cases (is_active row.status)) [
    | inl open_row ↦ rw open_row (record {
      no_trigger = h;
      same_time = refl;
      same_cooldown = refl;
      same_mode = refl;
      same_count = refl;
    })
    | inr closed ↦ rw closed (Quiet-row row event h)
  ]

  abbrev pub Cases : PriceAlert → PriceAlert → Surroundings → PriceAlert × Event → Type 0
  Cases alert row s out = Triggered alert row s out ⊎ Quiet row out

  module _ (alert row : PriceAlert) (s : Surroundings) where
    process_past :
        is_past alert.expires_at s.now ≡ true
        → process_alert trim alert row s ≡ (record row { status = expired }, expires)
    unfolding process_alert
    process_past h = rw h refl

    process_by_coin :
        (b : Bool)
        → is_past alert.expires_at s.now ≡ false
        → s.coin_is_active ≡ b
        → process_alert trim alert row s ≡ (
            if not b then (row, skips coin_inactive) else at_price trim alert row s s.current_price)
    unfolding process_alert
    process_by_coin b h e = rw h (
        ap
          (λ (c : Bool).
            if not c then (row, skips coin_inactive) else at_price trim alert row s s.current_price)
          e)

    process_at_price :
        (p : Option Text)
        → is_past alert.expires_at s.now ≡ false
        → s.coin_is_active ≡ true
        → s.current_price ≡ p
        → process_alert trim alert row s ≡ at_price trim alert row s p
    process_at_price p h e priced = process_by_coin true h e ∙ ap (at_price trim alert row s) priced

    trigger_by :
        (b : Bool) (price : Text)
        → s.delivers ≡ b
        → trigger trim alert row s price ≡ (
            if not b
            then (row, skips processing_failed)
            else if is_active row.status
            then (mark_triggered row price s.now (status_after alert.trigger_mode), triggers)
            else (row, skips state_changed))
    trigger_by b price e =
        ap
          (λ (c : Bool).
            if not c
            then (row, skips processing_failed)
            else if is_active row.status
            then (mark_triggered row price s.now (status_after alert.trigger_mode), triggers)
            else (row, skips state_changed))
          e

    -- What is left of the conditions when the price has crossed its target.
    crossed-Cases :
        (price : Text)
        → s.current_price ≡ some price
        → has_crossed trim alert.direction alert.last_checked_price price alert.target_price
          ≡ some true
        → is_past alert.expires_at s.now ≡ false
        → s.coin_is_active ≡ true
        → Cases alert row s (after_crossing trim alert row s price (some true))
    crossed-Cases price priced crossed unexpired coin_active =
        elim (Bool-cases
          (is_cooldown_expired alert.last_triggered_at alert.notification_cooldown_minutes s.now)) [
            | inr hot ↦ rw hot (inr (Quiet-price row price _ refl))
            | inl cool ↦
                elim (Bool-cases
                  (is_missing s.recipient_email && any is_email alert.notification_channels)) [
                    | inl missing ↦ rw (cool, missing) (inr (Quiet-price row price _ refl))
                    | inr reachable ↦ elim (Bool-cases s.delivers) [
                      | inr lost ↦
                          rw (cool, reachable, trigger_by false price lost)
                            (inr (Quiet-row row _ refl))
                      | inl delivered ↦ elim (Bool-cases (is_active row.status)) [
                        | inr closed ↦
                            rw (cool, reachable, trigger_by true price delivered, closed)
                              (inr (Quiet-row row _ refl))
                        | inl was_active ↦
                            rw (cool, reachable, trigger_by true price delivered, was_active)
                              (inl (record {
                                price = price;
                                priced = priced;
                                crossed = crossed;
                                unexpired = unexpired;
                                coin_active = coin_active;
                                cooled_down = cool;
                                reachable = reachable;
                                delivered = delivered;
                                was_active = was_active;
                                marked = refl;
                              }))
                      ]
                    ]
                  ]
          ]

    pub process-Cases : Cases alert row s (process_alert trim alert row s)
    process-Cases = elim (Bool-cases (is_past alert.expires_at s.now)) [
      | inl past ↦ rw (process_past past) (
          inr (record {
            no_trigger = refl;
            same_time = refl;
            same_cooldown = refl;
            same_mode = refl;
            same_count = refl;
          }))
      | inr unexpired ↦ elim (Bool-cases s.coin_is_active) [
        | inr gone ↦ rw (process_by_coin false unexpired gone) (inr (Quiet-row row _ refl))
        | inl coin_active ↦ elim (Option-cases s.current_price) [
          | inl unpriced ↦
              rw (process_at_price none unexpired coin_active unpriced) (inr (Quiet-row row _ refl))
          | inr (price, priced) ↦
              rw (process_at_price (some price) unexpired coin_active priced)
                (elim (Option-cases (
                  has_crossed trim alert.direction alert.last_checked_price price
                    alert.target_price)) [
                      | inl failed ↦ rw failed (inr (Quiet-row row _ refl))
                      | inr (false, apart) ↦ rw apart (inr (Quiet-price row price _ refl))
                      | inr (true, crossed) ↦
                          rw crossed (crossed-Cases price priced crossed unexpired coin_active)
                    ])
        ]
      ]
    ]

    -- The way through all the conditions.
    pub process_triggers :
        (price : Text)
        → s.current_price ≡ some price
        → has_crossed trim alert.direction alert.last_checked_price price alert.target_price
          ≡ some true
        → is_past alert.expires_at s.now ≡ false
        → s.coin_is_active ≡ true
        → is_cooldown_expired alert.last_triggered_at alert.notification_cooldown_minutes s.now
          ≡ true
        → (is_missing s.recipient_email && any is_email alert.notification_channels) ≡ false
        → s.delivers ≡ true
        → is_active row.status ≡ true
        → process_alert trim alert row s
          ≡ (mark_triggered row price s.now (status_after alert.trigger_mode), triggers)
    process_triggers price priced crossed unexpired coin cool reachable delivered open_row =
        process_at_price (some price) unexpired coin priced
        ∙ rw (crossed, cool, reachable, trigger_by true price delivered, open_row) refl
