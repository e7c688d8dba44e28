-- ===== src/RateLimit/Store/Windows.antt =====
-- What the scripts keep, without Redis: a fixed window with a count, and a block, each with the
-- instant at which it ends.
use nest_backend.Common.{ℕ, ◌+◌, ◌-◌, ◌<◌, Option, none, some, if◌then◌else◌, ltb}
use nest_backend.Common.Int.{pos}
use nest_backend.RateLimit.Redis.{Entry}
use nest_backend.RateLimit.Store.{Reply, blocked_reply}

pub record Window : Type 0 where
  pub counter : Option (ℕ × ℕ)
  pub block : Option ℕ

abbrev pub counter_entry : Option (ℕ × ℕ) → Option Entry
counter_entry none = none
counter_entry (some (count, ends)) = some (record { value = count; expires = some ends })

abbrev pub block_entry : Option ℕ → Option Entry
block_entry none = none
block_entry (some ends) = some (record { value = 1; expires = some ends })

-- An open window has counted something.
abbrev pub IsCounting : Option (ℕ × ℕ) → Type 0
IsCounting none = Unit
IsCounting (some (count, ends)) = 0 < count

-- The count after a hit, and the end of its window.
abbrev pub hit_counter : ℕ → ℕ → ℕ → Option (ℕ × ℕ) → ℕ × ℕ
hit_counter now window_ms cost none = (cost, now + window_ms)
hit_counter now window_ms cost (some (count, ends)) = (count + cost, ends)

abbrev pub conclude_window : ℕ → ℕ → ℕ → ℕ × ℕ → Window × Reply
conclude_window now limit block_ms (count, ends) =
    if ltb limit count
    then if ltb 0 block_ms
      then (
        record { counter = none; block = some (now + block_ms) },
        record { allowed = 0; count = pos count; reset_after_ms = pos block_ms; blocked = 1 },
      )
      else (
        record { counter = some (count, ends); block = none },
        record { allowed = 0; count = pos count; reset_after_ms = pos (ends - now); blocked = 0 },
      )
    else (
      record { counter = some (count, ends); block = none },
      record { allowed = 1; count = pos count; reset_after_ms = pos (ends - now); blocked = 0 },
    )

abbrev pub hit_window : ℕ → ℕ → ℕ → ℕ → ℕ → Option (ℕ × ℕ) → Option ℕ → Window × Reply
hit_window now limit window_ms block_ms cost counter none =
    conclude_window now limit block_ms (hit_counter now window_ms cost counter)
hit_window now limit window_ms block_ms cost counter (some ends) =
    (record { counter = counter; block = some ends }, blocked_reply (pos (ends - now)))

abbrev pub consume_window : ℕ → ℕ → ℕ → ℕ → ℕ → Window → Window × Reply
consume_window now limit window_ms block_ms cost w =
    hit_window now limit window_ms block_ms cost w.counter w.block
