-- ===== src/RateLimit/Store.antt =====
-- services/rate-limit-store.service.ts, services/rate-limit-key.builder.ts and
-- ../hashing/security-hasher.service.ts. Redis is a parameter, and so is `digest_hex`, the keyed hash
-- of node's crypto library in hexadecimal digits.
pub mod Windows
pub mod Scripts
pub mod Budget
use nest_backend.Common.{
  ℕ, suc, ◌+◌, ◌-◌, ◌*◌, ◌/◌, List, [], ◌∷◌, ◌++◌, Option, none, some, Bool, true, false,
  if◌then◌else◌, ltb, leb, ◌==◌, take,
}
use nest_backend.Common.Int.{ℤ, pos, negsuc, is_negative}
use nest_backend.Common.Text.{Text, codes}
use nest_backend.RateLimit.{RateLimitRule, RateLimitResult, identifier_text}
use nest_backend.RateLimit.Redis.{Redis}

abbrev pub rate_limit_hash_length : ℕ
rate_limit_hash_length = 32

-- `RATE_LIMIT_KEY_ROOT` and `RATE_LIMIT_BLOCK_SUFFIX`
abbrev pub rate_limit_key_root : Text
rate_limit_key_root = codes "rl"

abbrev pub rate_limit_block_suffix : Text
rate_limit_block_suffix = codes "blocked"

module _ (digest_hex : Text → Text) where
  abbrev pub hmac_hex : Text → ℕ → Text
  hmac_hex value length = take length (digest_hex value)

  unfoldable pub hash : RateLimitRule → Text → Text
  hash rule value =
      hmac_hex (identifier_text rule.identifier ++ (codes ":" ++ value)) rate_limit_hash_length

  unfoldable pub counter_key : RateLimitRule → Text → Text
  counter_key rule value =
      rate_limit_key_root
      ++ (codes ":"
          ++ (rule.key_prefix
              ++ (codes ":"
                  ++ (identifier_text rule.identifier ++ (codes ":" ++ hash rule value)))))

  unfoldable pub block_key : RateLimitRule → Text → Text
  block_key rule value = counter_key rule value ++ (codes ":" ++ rate_limit_block_suffix)

-- The array that a script returns.
pub record Reply : Type 0 where
  pub allowed : ℕ
  pub count : ℤ
  pub reset_after_ms : ℤ
  pub blocked : ℕ

abbrev pub is_positive : ℤ → Bool
is_positive (pos n) = ltb 0 n
is_positive (negsuc n) = false

-- `Number(x)` of a reply that is not negative.
abbrev pub natural : ℤ → ℕ
natural (pos n) = n
natural (negsuc n) = 0

abbrev pub blocked_reply : ℤ → Reply
blocked_reply ttl = record { allowed = 0; count = negsuc 0; reset_after_ms = ttl; blocked = 1 }

module _ (r : Redis) where
  -- What CONSUME_SCRIPT does with the count and the time left of the window.
  abbrev pub conclude : r.State → ℕ → Text → Text → ℕ → ℕ → ℕ → ℤ → r.State × Reply
  conclude s now counter block limit block_ms count ttl =
      if ltb limit count
      then if ltb 0 block_ms
        then (
          r.del (r.set_px s now block 1 block_ms) counter,
          record { allowed = 0; count = pos count; reset_after_ms = pos block_ms; blocked = 1 },
        )
        else (s, record { allowed = 0; count = pos count; reset_after_ms = ttl; blocked = 0 })
      else (s, record { allowed = 1; count = pos count; reset_after_ms = ttl; blocked = 0 })

  abbrev pub with_expiry : r.State → ℕ → Text → Text → ℕ → ℕ → ℕ → ℕ → r.State × Reply
  with_expiry s now counter block limit window_ms block_ms count =
      let ttl = r.pttl s now counter in
      if is_negative ttl
      then conclude (r.pexpire s now counter window_ms) now counter block limit block_ms count
          (pos window_ms)
      else conclude s now counter block limit block_ms count ttl

  abbrev pub count_hit : r.State → ℕ → Text → Text → ℕ → ℕ → ℕ → ℕ → r.State × Reply
  count_hit s now counter block limit window_ms block_ms cost =
      let (hit, count) = r.incrby s now counter cost in
      with_expiry (if count == cost then r.pexpire hit now counter window_ms else hit) now counter
        block limit window_ms block_ms count

  -- `CONSUME_SCRIPT`
  unfoldable pub consume_script : r.State → ℕ → Text → Text → ℕ → ℕ → ℕ → ℕ → r.State × Reply
  consume_script s now counter block limit window_ms block_ms cost =
      let block_ttl = r.pttl s now block in
      if is_positive block_ttl
      then (s, blocked_reply block_ttl)
      else count_hit s now counter block limit window_ms block_ms cost

  abbrev pub number_or_zero : Option ℕ → ℕ
  number_or_zero none = 0
  number_or_zero (some n) = n

  -- `PEEK_SCRIPT`
  unfoldable pub peek_script : r.State → ℕ → Text → Text → ℕ → Reply
  peek_script s now counter block limit =
      let block_ttl = r.pttl s now block in
      let count = number_or_zero (r.get s now counter) in
      let ttl = r.pttl s now counter in
      let shown = if is_negative ttl then pos 0 else ttl in
      if is_positive block_ttl then blocked_reply block_ttl else record {
        allowed = if ltb limit count then 0 else 1;
        count = pos count;
        reset_after_ms = shown;
        blocked = 0;
      }

  -- `RESET_SCRIPT`
  unfoldable pub reset_script : r.State → Text → Text → r.State
  reset_script s counter block = r.del (r.del s counter) block

abbrev pub ms_per_second : ℕ
ms_per_second = 1000

-- `Math.ceil(ms / 1000)`
abbrev pub to_retry_after_seconds : ℕ → ℕ
to_retry_after_seconds ms = (ms + 999) / ms_per_second

unfoldable pub to_result : RateLimitRule → ℕ → Reply → RateLimitResult
to_result rule now reply =
    let reset_after_ms = natural reply.reset_after_ms in
    record {
      policy = rule.name;
      allowed = reply.allowed == 1;
      limit = rule.limit;
      remaining = if is_negative reply.count then 0 else rule.limit - natural reply.count;
      reset_at = now + reset_after_ms;
      retry_after_seconds = to_retry_after_seconds reset_after_ms;
      blocked = reply.blocked == 1;
      degraded = false;
    }

unfoldable pub degraded_result : RateLimitRule → ℕ → RateLimitResult
degraded_result rule now = record {
  policy = rule.name;
  allowed = rule.fail_open;
  limit = rule.limit;
  remaining = 0;
  reset_at = now + rule.window_ms;
  retry_after_seconds = to_retry_after_seconds rule.window_ms;
  blocked = false;
  degraded = true;
}

-- What becomes of a call of Redis: it answers, or it throws, before the script ran or after it.
pub data Delivery : Type 0 where
  answers refused reply_lost : Delivery

-- `run`: the reply, or `none` for a call that throws.
abbrev pub answered : RateLimitRule → ℕ → Option Reply → RateLimitResult
answered rule now none = degraded_result rule now
answered rule now (some reply) = to_result rule now reply

-- `consume`, `peek` and `reset`. `clock` is the time of the clock service, which need not be that of
-- Redis.
module _ (r : Redis) (digest_hex : Text → Text) where
  unfoldable pub consume_store :
      Delivery → r.State → ℕ → ℕ → RateLimitRule → Text → ℕ → r.State × RateLimitResult
  consume_store delivery s now clock rule value cost =
      let counter = counter_key digest_hex rule value in
      let block = block_key digest_hex rule value in
      let (next, reply) =
        consume_script r s now counter block rule.limit rule.window_ms rule.block_duration_ms
          cost in
      elim delivery [
        | answers ↦ (next, answered rule clock (some reply))
        | refused ↦ (s, answered rule clock none)
        | reply_lost ↦ (next, answered rule clock none)
      ]

  unfoldable pub peek_store : Delivery → r.State → ℕ → ℕ → RateLimitRule → Text → RateLimitResult
  peek_store delivery s now clock rule value =
      let counter = counter_key digest_hex rule value in
      let block = block_key digest_hex rule value in
      elim delivery [
        | answers ↦ answered rule clock (some (peek_script r s now counter block rule.limit))
        | refused ↦ answered rule clock none
        | reply_lost ↦ answered rule clock none
      ]

  unfoldable pub reset_store : r.State → RateLimitRule → Text → r.State
  reset_store s rule value =
      reset_script r s (counter_key digest_hex rule value) (block_key digest_hex rule value)
