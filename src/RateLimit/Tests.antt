-- ===== src/RateLimit/Tests.antt =====
-- Runs of the rate limiter.
use nest_backend.Common.{ℕ, zero, suc, ◌≡◌, refl, Option, none, some, false}
use nest_backend.Common.Int.{pos}
use nest_backend.Common.Text.{Text, codes}
use nest_backend.RateLimit.Redis.{plain_redis, Entry}
use nest_backend.RateLimit.Resolvers.{plain_object, read_body_string}
use nest_backend.RateLimit.Store.{consume_script, peek_script, reset_script}

abbrev nothing : Text → Option Entry
nothing key = none

abbrev hits : ℕ → Text → Option Entry
hits zero = nothing
hits (suc n) = (consume_script plain_redis (hits n) 100 (codes "c") (codes "b") 2 1000 5000 1).0

third_hit_blocks :
    (consume_script plain_redis (hits 2) 200 (codes "c") (codes "b") 2 1000 5000 1).1
    ≡ record { allowed = 0; count = pos 3; reset_after_ms = pos 5000; blocked = 1 }
unfolding consume_script
third_hit_blocks = refl

peek_at_limit :
    peek_script plain_redis (hits 2) 300 (codes "c") (codes "b") 2
    ≡ record { allowed = 1; count = pos 2; reset_after_ms = pos 800; blocked = 0 }
unfolding consume_script peek_script
peek_at_limit = refl

reset_clears :
    peek_script plain_redis
      (reset_script plain_redis (hits 3) (codes "c") (codes "b"))
      300
      (codes "c")
      (codes "b")
      2
    ≡ record { allowed = 1; count = pos 0; reset_after_ms = pos 0; blocked = 0 }
unfolding consume_script peek_script reset_script
reset_clears = refl

cut_field :
    read_body_string
      (λ text. text)
      (λ text. text)
      (plain_object (λ field. some (codes "abcdef")))
      (codes "code")
      4
      false
    ≡ some (codes "abcd")
cut_field = refl
