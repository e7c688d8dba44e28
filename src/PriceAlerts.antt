-- ===== src/PriceAlerts.antt =====
-- src/features/coin-tracker/application/services: price-alert-evaluator.service.ts, and what
-- price-check.service.ts does with one alert. Instants are milliseconds. `trim` is a parameter, and a
-- price is the text of a finite number that is not negative. Log lines and realtime events are left out.
pub mod Crossing
pub mod Triggers
pub mod Spacing
pub mod Firing
mod Witnesses
use nest_backend.Common.{
  ℕ, zero, suc, ◌+◌, ◌-◌, ◌*◌, ◌^◌, ◌<◌, max, List, [], ◌∷◌, ◌++◌, Option, none, some, ◌>>=◌, Bool,
  true, false, not, ◌&&◌, ◌||◌, if◌then◌else◌, ltb, leb, ◌==◌, any, all, is_empty, length, Ordering,
}
use nest_backend.Common.Int.{ℤ, pos, negsuc, compare_ℤ}
use nest_backend.Common.Text.{Text, codes, is_digit, big_int}

pub data AlertDirection : Type 0 where
  buy sell : AlertDirection

pub data AlertTriggerMode : Type 0 where
  once repeat : AlertTriggerMode

pub data AlertStatus : Type 0 where
  active triggered expired cancelled : AlertStatus

pub data NotificationChannel : Type 0 where
  email sms : NotificationChannel

pub record ParsedPrice : Type 0 where
  pub coefficient : ℤ
  pub scale : ℕ

-- The digits in front of a text, and what follows them.
abbrev pub span_digits : Text → Text × Text
span_digits [] = ([], [])
span_digits (c ∷ s) =
    let rest = span_digits s in if is_digit c then (c ∷ rest.0, rest.1) else ([], c ∷ s)

-- `[+-]?`: whether there is a minus sign, and what follows.
abbrev pub read_sign : Text → Bool × Text
read_sign [] = (false, [])
read_sign (c ∷ s) =
    if c == b'-' then (true, s) else if c == b'+' then (false, s) else (false, c ∷ s)

-- `(?:\.(\d*))?`
abbrev pub read_fraction : Text → Text × Text
read_fraction [] = ([], [])
read_fraction (c ∷ s) = if c == b'.' then span_digits s else ([], c ∷ s)

-- `(?:e([+-]?\d+))?$`: the exponent's sign and size, or none if the text does not end there.
abbrev pub read_exponent : Text → Option (Bool × ℕ)
read_exponent [] = some (false, 0)
read_exponent (c ∷ s) =
    let (negative, t) = read_sign s in
    let (digits, rest) = span_digits t in
    if (c == b'e' || c == b'E') && (not (is_empty digits) && is_empty rest)
    then some (negative, big_int digits)
    else none

abbrev pub signed : Bool → ℕ → ℤ
signed false n = pos n
signed true zero = pos 0
signed true (suc n) = negsuc n

-- The coefficient and the scale for the digits of a text.
abbrev pub at_exponent : Bool → Text → Text → Bool × ℕ → ParsedPrice
at_exponent negative whole fraction (false, exponent) = record {
  coefficient = signed negative (big_int (whole ++ fraction) * 10 ^ (exponent - length fraction));
  scale = length fraction - exponent;
}
at_exponent negative whole fraction (true, exponent) = record {
  coefficient = signed negative (big_int (whole ++ fraction));
  scale = length fraction + exponent;
}

abbrev pub map_exponent : (Bool × ℕ → ParsedPrice) → Option (Bool × ℕ) → Option ParsedPrice
map_exponent f none = none
map_exponent f (some exponent) = some (f exponent)

module _ (trim : Text → Text) where
  -- `none` for a text that throws.
  unfoldable pub parse_price : Text → Option ParsedPrice
  parse_price value =
      let (negative, s) = read_sign (trim value) in
      let (whole, t) = span_digits s in
      let (fraction, u) = read_fraction t in
      if is_empty whole
      then none
      else map_exponent (at_exponent negative whole fraction) (read_exponent u)

abbrev pub scaled : ℤ → ℕ → ℤ
scaled (pos n) k = pos (n * k)
scaled (negsuc n) k = signed true (suc n * k)

abbrev pub compare_parsed : ParsedPrice → ParsedPrice → Ordering
compare_parsed left right =
    let scale = max left.scale right.scale in
    compare_ℤ (scaled left.coefficient (10 ^ (scale - left.scale)))
      (scaled right.coefficient (10 ^ (scale - right.scale)))

abbrev pub is_lower : Ordering → Bool
is_lower Ordering.lt = true
is_lower Ordering.eq = false
is_lower Ordering.gt = false

abbrev pub is_higher : Ordering → Bool
is_higher Ordering.lt = false
is_higher Ordering.eq = false
is_higher Ordering.gt = true

abbrev pub crosses : AlertDirection → Ordering → Ordering → Bool
crosses sell previous_to_target current_to_target =
    is_lower previous_to_target && not (is_lower current_to_target)
crosses buy previous_to_target current_to_target =
    is_higher previous_to_target && not (is_higher current_to_target)

pub record PriceAlert : Type 0 where
  pub direction : AlertDirection
  pub target_price : Text
  pub trigger_mode : AlertTriggerMode
  pub status : AlertStatus
  pub expires_at : Option ℕ
  pub notification_channels : List NotificationChannel
  pub notification_cooldown_minutes : ℕ
  pub last_checked_price : Option Text
  pub last_triggered_at : Option ℕ
  pub triggered_count : ℕ

abbrev pub is_active : AlertStatus → Bool
is_active active = true
is_active triggered = false
is_active expired = false
is_active cancelled = false

abbrev pub ms_per_minute : ℕ
ms_per_minute = 60000

abbrev pub is_cooldown_expired : Option ℕ → ℕ → ℕ → Bool
is_cooldown_expired none cooldown_minutes now = true
is_cooldown_expired (some last_triggered_at) cooldown_minutes now =
    leb (last_triggered_at + cooldown_minutes * ms_per_minute) now

abbrev pub is_past : Option ℕ → ℕ → Bool
is_past none now = false
is_past (some expires_at) now = ltb expires_at now

abbrev pub is_email : NotificationChannel → Bool
is_email email = true
is_email sms = false

-- What a check meets beside the alert: the price of its coin if there is one, whether the coin is
-- active, the address of the owner, and whether the notifications are handed over.
pub record Surroundings : Type 0 where
  pub now : ℕ
  pub coin_is_active : Bool
  pub current_price : Option Text
  pub recipient_email : Option Text
  pub delivers : Bool

pub data Reason : Type 0 where
  processing_failed coin_inactive price_unavailable cooldown_active recipient_unavailable
        state_changed :
      Reason

pub data Event : Type 0 where
  expires unchanged triggers : Event
  skips : Reason → Event

-- The two writes of the repository that ask for an active row.
abbrev pub update_last_checked_price : PriceAlert → Text → PriceAlert
update_last_checked_price row price =
    if is_active row.status then record row { last_checked_price = some price } else row

abbrev pub status_after : AlertTriggerMode → AlertStatus
status_after once = triggered
status_after repeat = active

unfoldable pub mark_triggered : PriceAlert → Text → ℕ → AlertStatus → PriceAlert
mark_triggered row price now status = record row {
  last_checked_price = some price;
  last_triggered_at = some now;
  status = status;
  triggered_count = row.triggered_count + 1;
}

abbrev pub is_missing : Option Text → Bool
is_missing none = true
is_missing (some address) = false

module _ (trim : Text → Text) where
  abbrev pub has_crossed_to :
      AlertDirection → Option ParsedPrice → Option ParsedPrice → Option ParsedPrice → Option Bool
  has_crossed_to direction none current target = none
  has_crossed_to direction (some previous) none target = none
  has_crossed_to direction (some previous) (some current) none = none
  has_crossed_to direction (some previous) (some current) (some target) =
      some (crosses direction (compare_parsed previous target) (compare_parsed current target))

  abbrev pub has_crossed : AlertDirection → Option Text → Text → Text → Option Bool
  has_crossed direction none current target = some false
  has_crossed direction (some previous) current target =
      has_crossed_to direction (parse_price trim previous) (parse_price trim current)
        (parse_price trim target)

  -- From the notifications on. `row` is the stored alert, which may have changed since it was read.
  abbrev pub trigger : PriceAlert → PriceAlert → Surroundings → Text → PriceAlert × Event
  trigger alert row s price =
      if not s.delivers
      then (row, skips processing_failed)
      else if is_active row.status
      then (mark_triggered row price s.now (status_after alert.trigger_mode), triggers)
      else (row, skips state_changed)

  abbrev pub after_crossing :
      PriceAlert → PriceAlert → Surroundings → Text → Option Bool → PriceAlert × Event
  after_crossing alert row s price none = (row, skips processing_failed)
  after_crossing alert row s price (some false) = (update_last_checked_price row price, unchanged)
  after_crossing alert row s price (some true) =
      if not (is_cooldown_expired alert.last_triggered_at alert.notification_cooldown_minutes s.now)
      then (update_last_checked_price row price, skips cooldown_active)
      else if is_missing s.recipient_email && any is_email alert.notification_channels
      then (update_last_checked_price row price, skips recipient_unavailable)
      else trigger alert row s price

  abbrev pub at_price : PriceAlert → PriceAlert → Surroundings → Option Text → PriceAlert × Event
  at_price alert row s none = (row, skips price_unavailable)
  at_price alert row s (some price) =
      after_crossing alert row s price
        (has_crossed alert.direction alert.last_checked_price price alert.target_price)

  -- `processAlert`
  unfoldable pub process_alert : PriceAlert → PriceAlert → Surroundings → PriceAlert × Event
  process_alert alert row s =
      if is_past alert.expires_at s.now
      then (record row { status = expired }, expires)
      else if not s.coin_is_active
      then (row, skips coin_inactive)
      else at_price alert row s s.current_price
