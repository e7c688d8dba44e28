-- ===== src/RateLimit.antt =====
-- src/features/security/rate-limit/types: rules, results and decisions. Durations and instants are
-- milliseconds. The key generator that a rule
-- may carry is a parameter of Resolvers.
pub mod Redis
pub mod Resolvers
pub mod Store
pub mod Service
pub mod Laws
mod Tests
mod Witnesses
use nest_backend.Common.{ℕ, Option, none, some, Bool}
use nest_backend.Common.Text.{Text, codes}

pub data RateLimitIdentifier : Type 0 where
  ip device user session email username verification_code route custom : RateLimitIdentifier

-- The value of the enum member.
abbrev pub identifier_text : RateLimitIdentifier → Text
identifier_text ip = codes "ip"
identifier_text device = codes "device"
identifier_text user = codes "user"
identifier_text session = codes "session"
identifier_text email = codes "email"
identifier_text username = codes "username"
identifier_text verification_code = codes "code"
identifier_text route = codes "route"
identifier_text custom = codes "custom"

pub record RateLimitRule : Type 0 where
  pub name : Text
  pub identifier : RateLimitIdentifier
  pub key_prefix : Text
  pub limit : ℕ
  pub window_ms : ℕ
  pub block_duration_ms : ℕ
  pub enabled : Bool
  pub fail_open : Bool

pub record RateLimitResult : Type 0 where
  pub policy : Text
  pub allowed : Bool
  pub limit : ℕ
  pub remaining : ℕ
  pub reset_at : ℕ
  pub retry_after_seconds : ℕ
  pub blocked : Bool
  pub degraded : Bool

pub record RateLimitDecision : Type 0 where
  pub allowed : Bool
  pub result : Option RateLimitResult
  pub retry_after_seconds : ℕ
