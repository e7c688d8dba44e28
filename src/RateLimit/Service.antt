-- ===== src/RateLimit/Service.antt =====
-- services/rate-limit.service.ts, services/rate-limit-evaluator.service.ts and
-- guards/rate-limit.guard.ts. What a rule's identifier resolves to in the request is the parameter
-- `resolve`, and logging is left out.
pub mod Decisions
pub mod Gate
use nest_backend.Common.{
  ℕ, ◌+◌, ◌/◌, List, [], ◌∷◌, Option, none, some, Bool, true, false, not, if◌then◌else◌, ltb,
  is_empty,
}
use nest_backend.Common.Text.{Text}
use nest_backend.RateLimit.{RateLimitRule, RateLimitResult, RateLimitDecision}
use nest_backend.RateLimit.Redis.{Redis}
use nest_backend.RateLimit.Store.{Delivery, consume_store, peek_store, ms_per_second}

abbrev pub disabled_result : RateLimitRule → RateLimitResult
disabled_result rule = record {
  policy = rule.name;
  allowed = true;
  limit = rule.limit;
  remaining = rule.limit;
  reset_at = 0;
  retry_after_seconds = 0;
  blocked = false;
  degraded = false;
}

module _ (r : Redis) (digest_hex : Text → Text) where
  unfoldable pub consume_rule :
      Delivery → ℕ → ℕ → r.State → RateLimitRule → Text → ℕ → r.State × RateLimitResult
  consume_rule delivery now clock s rule value cost =
      if not rule.enabled
      then (s, disabled_result rule)
      else consume_store r digest_hex delivery s now clock rule value cost

  unfoldable pub peek_rule : Delivery → ℕ → ℕ → r.State → RateLimitRule → Text → RateLimitResult
  peek_rule delivery now clock s rule value =
      if not rule.enabled
      then disabled_result rule
      else peek_store r digest_hex delivery s now clock rule value

-- `tightest` after a result.
abbrev pub tighter : Option RateLimitResult → RateLimitResult → Option RateLimitResult
tighter none result = some result
tighter (some tightest) result =
    if ltb result.remaining tightest.remaining then some result else some tightest

abbrev pub denial : RateLimitResult → RateLimitDecision
denial result = record {
  allowed = false;
  result = some result;
  retry_after_seconds = result.retry_after_seconds;
}

-- What the guard does with a request: it lets it pass, or answers 429 with a wait in seconds.
pub data Activation : Type 0 where
  proceeds : Activation
  too_many_requests : ℕ → Activation

-- The values of the three headers.
pub record Headers : Type 0 where
  pub limit : ℕ
  pub remaining : ℕ
  pub reset : ℕ

abbrev pub headers_of : Option RateLimitResult → Option Headers
headers_of none = none
headers_of (some result) = some (record {
  limit = result.limit;
  remaining = result.remaining;
  reset = (result.reset_at + 999) / ms_per_second;
})

abbrev pub activation_of : RateLimitDecision → Activation
activation_of decision =
    if not decision.allowed then too_many_requests decision.retry_after_seconds else proceeds

-- The value of a rule that is not skipped.
abbrev pub rule_value : (RateLimitRule → Option Text) → RateLimitRule → Option Text
rule_value resolve rule = if not rule.enabled then none else resolve rule

module _ {State : Type 0} (resolve : RateLimitRule → Option Text)
    (consume : State → RateLimitRule → Text → State × RateLimitResult) where
  -- The loop of `evaluate`.
  abbrev pub evaluate_from :
      State → Option RateLimitResult → List RateLimitRule → State × RateLimitDecision
  evaluate_from s tightest [] =
      (s, record { allowed = true; result = tightest; retry_after_seconds = 0 })
  evaluate_from s tightest (rule ∷ rules) = elim (rule_value resolve rule) [
    | none ↦ evaluate_from s tightest rules
    | some value ↦ elim ((consume s rule value).1.allowed) [
      | false ↦ ((consume s rule value).0, denial (consume s rule value).1)
      | true ↦
          evaluate_from (consume s rule value).0 (tighter tightest (consume s rule value).1) rules
    ]
  ]

  unfoldable pub evaluate : State → List RateLimitRule → State × RateLimitDecision
  evaluate s rules = evaluate_from s none rules

  -- `canActivate`, for the rules that the route declares.
  unfoldable pub can_activate : State → List RateLimitRule → State × (Activation × Option Headers)
  can_activate s rules =
      let (next, decision) = evaluate s rules in
      if is_empty rules
      then (s, (proceeds, none))
      else (next, (activation_of decision, headers_of decision.result))
