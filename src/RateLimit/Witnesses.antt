-- ===== src/RateLimit/Witnesses.antt =====
-- The theorems about the rate limiter at concrete inputs.
use nest_backend.Common.{
  ◌≡◌, refl, [], ◌∷◌, Option, none, some, true, false, arith, inr, if◌then◌else◌,
}
use nest_backend.Common.Text.{Text, text_eq, codes}
use nest_backend.RateLimit.{RateLimitRule, RateLimitResult, ip, device, route}
use nest_backend.RateLimit.Resolvers.{Request, resolve, no_object}
use nest_backend.RateLimit.Service.Gate.{AnswersBy, can_activate_counted}
use nest_backend.RateLimit.Redis.{plain_redis, Entry}
use nest_backend.RateLimit.Store.{answers, consume_script}
use nest_backend.RateLimit.Store.Windows.{consume_window}
use nest_backend.RateLimit.Store.Scripts.{Shows, Refines, consume_script-Refines}
use nest_backend.RateLimit.Store.Budget.{allowed_hits, allowed_hits_lem}
use nest_backend.RateLimit.Service.{evaluate, consume_rule, can_activate}
use nest_backend.RateLimit.Service.Decisions.{Among, Decides, results, evaluate-Decides}

abbrev login_rule : RateLimitRule
login_rule = record {
  name = codes "login";
  identifier = ip;
  key_prefix = codes "auth";
  limit = 2;
  window_ms = 1000;
  block_duration_ms = 5000;
  enabled = true;
  fail_open = false;
}

-- Two hits are counted in a window that ends at 1000.
abbrev counted : Text → Option Entry
counted key =
    if text_eq (codes "c") key then some (record { value = 2; expires = some 1000 }) else none

abbrev fresh : Text → Option Entry
fresh key = none

counted-Shows :
    Shows plain_redis
      (codes "c")
      (codes "b")
      counted
      400
      (record { counter = some (2, 1000); block = none })
counted-Shows = record { counts = refl; blocks = refl }

fresh-Shows :
    Shows plain_redis (codes "c") (codes "b") fresh 400 (record { counter = none; block = none })
fresh-Shows = record { counts = refl; blocks = refl }

consume_script-Refines_example :
    Refines plain_redis
      (codes "c")
      (codes "b")
      (consume_script plain_redis counted 400 (codes "c") (codes "b") 2 1000 5000 1)
      400
      (consume_window 400 2 1000 5000 1 (record { counter = some (2, 1000); block = none }))
consume_script-Refines_example =
    consume_script-Refines plain_redis (codes "c") (codes "b") refl refl counted 400 2 1000 5000 1
      (record { counter = some (2, 1000); block = none }) (omega arith) (omega arith) counted-Shows

allowed_hits_lem_example :
    allowed_hits plain_redis
      (codes "c")
      (codes "b")
      refl
      refl
      2
      1000
      5000
      (omega arith)
      fresh
      (500 ∷ 600 ∷ 700 ∷ [])
    ≡ 2
allowed_hits_lem_example =
    allowed_hits_lem plain_redis (codes "c") (codes "b") refl refl 2 1000 5000 (omega arith)
      (inr (omega arith)) fresh 400 500 (600 ∷ 700 ∷ []) fresh-Shows (omega arith)
      (omega arith, omega arith, (omega arith, omega arith, tt))

abbrev device_rule : RateLimitRule
device_rule = record login_rule {
  name = codes "device";
  identifier = device;
  limit = 5;
  block_duration_ms = 0;
}

-- Every rule resolves to the same text.
abbrev resolved : RateLimitRule → Option Text
resolved rule = some (codes "x")

-- A hash that is none.
abbrev plain_hash : Text → Text
plain_hash text = text

evaluate-Decides_example :
    Decides resolved
      (λ s rule value. consume_rule plain_redis plain_hash answers 400 400 s rule value 1)
      (evaluate resolved
        (λ s rule value. consume_rule plain_redis plain_hash answers 400 400 s rule value 1)
        fresh
        (login_rule ∷ device_rule ∷ [])).1
      (results resolved
        (λ s rule value. consume_rule plain_redis plain_hash answers 400 400 s rule value 1)
        fresh
        (login_rule ∷ device_rule ∷ []))
evaluate-Decides_example =
    evaluate-Decides resolved
      (λ s rule value. consume_rule plain_redis plain_hash answers 400 400 s rule value 1) fresh
      (login_rule ∷ device_rule ∷ [])

abbrev route_rule : RateLimitRule
route_rule = record login_rule {
  name = codes "route";
  identifier = route;
  limit = 5;
  block_duration_ms = 0;
}

abbrev anonymous : Request
anonymous = record {
  ip = none;
  device_id = none;
  user_id = none;
  session_id = none;
  body = no_object;
}

can_activate_counted_example :
    (x : RateLimitResult) × Among x (
      results
        (resolve plain_hash plain_hash (λ rule. none) anonymous (codes "A.b"))
        (λ s rule value. consume_rule plain_redis plain_hash answers 400 400 s rule value 1)
        fresh
        (login_rule ∷ route_rule ∷ []))
    × AnswersBy
        (can_activate
          (resolve plain_hash plain_hash (λ rule. none) anonymous (codes "A.b"))
          (λ s rule value. consume_rule plain_redis plain_hash answers 400 400 s rule value 1)
          fresh
          (login_rule ∷ route_rule ∷ [])).1
        x
can_activate_counted_example =
    can_activate_counted plain_hash plain_hash (λ rule. none)
      (λ s rule value. consume_rule plain_redis plain_hash answers 400 400 s rule value 1) fresh
      anonymous (codes "A.b") (login_rule ∷ []) [] route_rule refl refl
