-- ===== src/RateLimit/Service/Gate.antt =====
-- The group of rules that a route declares, against the requests that reach it.
use nest_backend.Common.{
  Bool, ◌∙◌, ap, ◌+◌, ◌*◌, ◌/◌, ◌≤◌, ◌<◌, ◌≡◌, refl, sym, ◌∙◌, inl, inr, List, [], ◌∷◌, ◌++◌,
  Option, none, some, true, false, Option-cases, arith, all, is_empty, if◌then◌else◌,
}
use nest_backend.Common.Text.{Text}
use nest_backend.RateLimit.{RateLimitRule, RateLimitResult, RateLimitDecision, route}
use nest_backend.RateLimit.Resolvers.{Request, resolve}
use nest_backend.RateLimit.Service.{
  rule_value, evaluate, can_activate, activation_of, proceeds, Activation, Headers,
  too_many_requests, headers_of,
}
use nest_backend.RateLimit.Service.Decisions.{
  results, at_skipped, Decides, Among, Among-last, evaluate-Decides,
}

module _ {State : Type 0} (resolved : RateLimitRule → Option Text)
    (consume : State → RateLimitRule → Text → State × RateLimitResult) where
  counted_head :
      (s : State) (rule : RateLimitRule) (rules : List RateLimitRule) (value : Text)
      → rule_value resolved rule ≡ some value
      → ¬ (results resolved consume s (rule ∷ rules) ≡ [])
  counted_head s rule rules value e h = let listed = rw (results, e) at h in cc

  counted_rule :
      (s : State) (front back : List RateLimitRule) (rule : RateLimitRule) (value : Text)
      → rule_value resolved rule ≡ some value
      → ¬ (results resolved consume s (front ++ rule ∷ back) ≡ [])
  counted_rule s [] back rule value e h = counted_head s rule back value e h
  counted_rule s (first ∷ front) back rule value e h =
      elim (Option-cases (rule_value resolved first)) [
        | inl skipped ↦
            counted_rule s front back rule value e
              (sym (at_skipped resolved consume s none first (front ++ rule ∷ back) skipped).1 ∙ h)
        | inr (v, f) ↦ counted_head s first (front ++ rule ∷ back) v f h
      ]

  Among-allowed :
      (x : RateLimitResult) (seen : List RateLimitResult)
      → all (λ y. y.allowed) seen ≡ true
      → Among x seen
      → x.allowed ≡ true
  Among-allowed x [] h m = absurd m
  Among-allowed x (y ∷ ys) h (inl e) = rw e (ground arith)
  Among-allowed x (y ∷ ys) h (inr m) = Among-allowed x ys (ground arith) m

  -- The answer that one result explains.
  abbrev Explains : RateLimitResult → RateLimitDecision → Type 0
  Explains x decision =
      (decision.result ≡ some x)
      × (activation_of decision
          ≡ (if x.allowed then proceeds else too_many_requests x.retry_after_seconds))

  explained :
      (decision : RateLimitDecision) (seen : List RateLimitResult)
      → Decides resolved consume decision seen
      → ¬ (seen ≡ [])
      → (x : RateLimitResult) × Among x seen × Explains x decision
  explained decision seen (inr (denied, (x, closed, last, shown, wait))) ne =
      (x, rw last.1 (Among-last x last.0), (shown, rw (denied, closed, wait) refl))
  explained decision seen (inl (allowed, passed, tight)) ne = elim (Option-cases decision.result) [
    | inl nothing ↦ absurd (ne (rw nothing at tight))
    | inr (x, shown) ↦
        let member = rw shown at tight in
        (x, member.0, (shown, rw (allowed, Among-allowed x seen passed member.0) refl))
  ]

route_value :
    (trim to_lower_case : Text → Text)
    (key_generator : RateLimitRule → Option (Request → Text → Option Text)) (request : Request)
    (route_key : Text) (rule : RateLimitRule)
    → rule.enabled ≡ true
    → rule.identifier ≡ route
    → rule_value (resolve trim to_lower_case key_generator request route_key) rule ≡ some route_key
unfolding resolve
route_value trim to_lower_case key_generator request route_key rule on e = rw (on, e) refl

grown_nonempty :
    (front back : List RateLimitRule) (rule : RateLimitRule)
    → is_empty (front ++ rule ∷ back) ≡ false
grown_nonempty [] back rule = refl
grown_nonempty (first ∷ front) back rule = refl

-- The headers tell of a result: its limit, what remains, and the first whole second by which it
-- resets.
pub record Advertises (h : Headers) (x : RateLimitResult) : Type 0 where
  pub limit : h.limit ≡ x.limit
  pub remaining : h.remaining ≡ x.remaining
  pub reset_covers : x.reset_at ≤ h.reset * 1000
  pub reset_least : h.reset * 1000 < x.reset_at + 1000

-- The answer to a request by the result `x`, and the headers that go with it.
pub record AnswersBy (answer : Activation × Option Headers) (x : RateLimitResult) : Type 0 where
  pub headers : Headers
  pub sent : answer.1 ≡ some headers
  pub advertises : Advertises headers x
  pub passes : x.allowed ≡ true → answer.0 ≡ proceeds
  pub denies : x.allowed ≡ false → answer.0 ≡ too_many_requests x.retry_after_seconds

headers_of-Advertises :
    (x : RateLimitResult) → (h : Headers) × (headers_of (some x) ≡ some h) × Advertises h x
headers_of-Advertises x =
    let h : Headers = record {
      limit = x.limit;
      remaining = x.remaining;
      reset = (x.reset_at + 999) / 1000;
    } in
    (
      h,
      refl,
      record {
        limit = refl;
        remaining = refl;
        reset_covers = omega arith;
        reset_least = omega arith;
      },
    )

explained-AnswersBy :
    (x : RateLimitResult) (decision : RateLimitDecision)
    → decision.result ≡ some x
    → activation_of decision
      ≡ (if x.allowed then proceeds else too_many_requests x.retry_after_seconds)
    → AnswersBy (activation_of decision, headers_of decision.result) x
explained-AnswersBy x decision shown answer =
    let (h, sent, told) = headers_of-Advertises x in
    record {
      headers = h;
      sent = ap headers_of shown ∙ sent;
      advertises = told;
      passes = λ e.
          answer
          ∙ ap (λ (b : Bool). if b then proceeds else too_many_requests x.retry_after_seconds) e;
      denies = λ e.
          answer
          ∙ ap (λ (b : Bool). if b then proceeds else too_many_requests x.retry_after_seconds) e;
    }

-- For a group of rules with an enabled rule whose identifier is the route, whatever the request
-- lacks, the guard answers by the result of one of the rules that count it: it sends headers with
-- that result's limit, its requests left, and the least number of whole seconds that reaches the
-- end of its window; it lets the request pass when that result is allowed, and otherwise answers
-- with that result's wait.
pub can_activate_counted :
    {State : Type 0} (trim to_lower_case : Text → Text)
    (key_generator : RateLimitRule → Option (Request → Text → Option Text))
    (consume : State → RateLimitRule → Text → State × RateLimitResult) (s : State)
    (request : Request) (route_key : Text) (front back : List RateLimitRule) (rule : RateLimitRule)
    → rule.enabled ≡ true
    → rule.identifier ≡ route
    → (x : RateLimitResult) × Among x (
        results
          (resolve trim to_lower_case key_generator request route_key)
          consume
          s
          (front ++ rule ∷ back))
      × AnswersBy
          (can_activate
            (resolve trim to_lower_case key_generator request route_key)
            consume
            s
            (front ++ rule ∷ back)).1
          x
unfolding can_activate
can_activate_counted trim to_lower_case key_generator consume s request route_key front back rule on
      e =
    let resolved = resolve trim to_lower_case key_generator request route_key in
    let rules = front ++ rule ∷ back in
    let (x, counts, (shown, answer)) =
      explained resolved consume (evaluate resolved consume s rules).1
        (results resolved consume s rules) (evaluate-Decides resolved consume s rules)
        (counted_rule resolved consume s front back rule route_key
          (route_value trim to_lower_case key_generator request route_key rule on e)) in
    (
      x,
      counts,
      rw (grown_nonempty front back rule)
          (explained-AnswersBy x (evaluate resolved consume s rules).1 shown answer),
    )
