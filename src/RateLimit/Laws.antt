-- ===== src/RateLimit/Laws.antt =====
-- The keys of a rule, and the results that the store reports.
use nest_backend.Common.{ℕ, ◌+◌, ◌*◌, ◌≤◌, ◌<◌, ◌≡◌, ap, ◌++◌, false, arith, length, length-append}
use nest_backend.Common.Text.{Text, text_eq, codes}
use nest_backend.Common.Text.Order.{eq_of_text_eq}
use nest_backend.Common.{Bool-cases, inl, inr}
use nest_backend.RateLimit.{RateLimitRule}
use nest_backend.RateLimit.Store.{
  rate_limit_block_suffix, counter_key, block_key, to_retry_after_seconds,
}

longer_apart : (s t : Text) → length s < length t → (text_eq s t ≡ false) × (text_eq t s ≡ false)
longer_apart s t h =
    (unequal s t (λ e. omega (arith, ap length e)), unequal t s (λ e. omega (arith, ap length e)))
  where
    unequal : (s t : Text) → (s ≡ t → ⊥) → text_eq s t ≡ false
    unequal s t h = elim (Bool-cases (text_eq s t)) [
      | inl same ↦ absurd (h (eq_of_text_eq s t same))
      | inr other ↦ other
    ]

-- The counter and the block of a rule have different keys.
pub keys_apart :
    (digest_hex : Text → Text) (rule : RateLimitRule) (value : Text)
    → (text_eq (counter_key digest_hex rule value) (block_key digest_hex rule value) ≡ false)
      × (text_eq (block_key digest_hex rule value) (counter_key digest_hex rule value) ≡ false)
unfolding block_key
keys_apart digest_hex rule value =
    let key = counter_key digest_hex rule value in
    longer_apart key (key ++ (codes ":" ++ rate_limit_block_suffix))
      (omega (arith, length-append key ((codes ":" ++ rate_limit_block_suffix))))

-- The advertised wait is the least number of seconds that covers the milliseconds.
pub to_retry_after_seconds_bounds :
    (ms : ℕ)
    → (ms ≤ to_retry_after_seconds ms * 1000) × (to_retry_after_seconds ms * 1000 < ms + 1000)
to_retry_after_seconds_bounds ms = omega arith
