-- ===== src/RateLimit/Store/Scripts.antt =====
-- The scripts on a Redis that behaves as documented keep such a window.
use nest_backend.Common.{
  ℕ, ◌+◌, ◌-◌, ◌<◌, ◌≡◌, refl, Option, none, some, true, false, ltb, ◌==◌, arith, Bool-cases, inl,
  inr,
}
use nest_backend.Common.Int.{pos}
use nest_backend.Common.Text.{Text, text_eq}
use nest_backend.Common.Text.Order.{text_eq_refl}
use nest_backend.RateLimit.Redis.{Redis, Entry, live, lives}
use nest_backend.RateLimit.Store.{
  Reply, conclude, with_expiry, count_hit, consume_script, is_positive,
}
use nest_backend.RateLimit.Store.Windows.{
  Window, counter_entry, block_entry, IsCounting, hit_counter, conclude_window, hit_window,
  consume_window,
}

-- What is live ends later.
live_ends :
    (now c x : ℕ) (e : Option Entry)
    → live now e ≡ some (record { value = c; expires = some x })
    → ltb now x ≡ true
live_ends now c x none h = cc
live_ends now c x (some e) h = elim (Bool-cases (lives now e.expires)) [
  | inl alive ↦
      let same : some e ≡ some (record { value = c; expires = some x }) = rw alive at h in
      let ends : e.expires ≡ some x = ground arith in rw ends at alive
  | inr dead ↦ ground arith
]

module _ (r : Redis) (counter block : Text) where
  -- The state holds the window, as seen at `now`.
  pub record Shows (s : r.State) (now : ℕ) (w : Window) : Type 0 where
    pub counts : live now (r.stored s counter) ≡ counter_entry w.counter
    pub blocks : live now (r.stored s block) ≡ block_entry w.block

  pub record Refines (out : r.State × Reply) (now : ℕ) (expected : Window × Reply) : Type 0 where
    pub shows : Shows out.0 now expected.0
    pub replies : out.1 ≡ expected.1

  module _ (apart : text_eq counter block ≡ false) (apart' : text_eq block counter ≡ false) where
    blocked_state :
        (s : r.State) (now block_ms : ℕ)
        → 0 < block_ms
        → Shows
            (r.del (r.set_px s now block 1 block_ms) counter)
            now
            (record { counter = none; block = some (now + block_ms) })
    blocked_state s now block_ms h =
        let set = r.set_px s now block 1 block_ms in
        let here = text_eq_refl counter in
        let there = text_eq_refl block in
        let alive : ltb now (now + block_ms) ≡ true = ground arith in
        record {
          counts = rw (r.del_stored set counter counter, here) refl;
          blocks =
              rw
                (
                  r.del_stored set counter block,
                  apart,
                  r.set_px_stored s now block 1 block_ms block,
                  there,
                  alive,
                )
                refl;
        }

    conclude-Refines :
        (s : r.State) (now limit block_ms count ends : ℕ)
        → Shows s now (record { counter = some (count, ends); block = none })
        → Refines
            (conclude r s now counter block limit block_ms count (pos (ends - now)))
            now
            (conclude_window now limit block_ms (count, ends))
    conclude-Refines s now limit block_ms count ends h = elim (Bool-cases (ltb limit count)) [
      | inr within ↦ rw within (record { shows = h; replies = refl })
      | inl over ↦ elim (Bool-cases (ltb 0 block_ms)) [
        | inr unblocked ↦ rw (over, unblocked) (record { shows = h; replies = refl })
        | inl penal ↦
            rw (over, penal)
              (record { shows = blocked_state s now block_ms (ground arith); replies = refl })
      ]
    ]

    with_expiry-Refines :
        (s : r.State) (now limit window_ms block_ms count ends : ℕ)
        → Shows s now (record { counter = some (count, ends); block = none })
        → Refines
            (with_expiry r s now counter block limit window_ms block_ms count)
            now
            (conclude_window now limit block_ms (count, ends))
    with_expiry-Refines s now limit window_ms block_ms count ends h =
        rw (r.pttl_lem s now counter, h.counts) (conclude-Refines s now limit block_ms count ends h)

    opened_window :
        (s : r.State) (now window_ms cost : ℕ)
        → 0 < window_ms
        → Shows s now (record { counter = none; block = none })
        → Shows
            (r.pexpire (r.incrby s now counter cost).0 now counter window_ms)
            now
            (record { counter = some (cost, now + window_ms); block = none })
    opened_window s now window_ms cost positive h =
        let hit = (r.incrby s now counter cost).0 in
        let here = text_eq_refl counter in
        let alive : ltb now (now + window_ms) ≡ true = ground arith in
        let counted : r.stored hit counter ≡ some (record { value = cost; expires = none }) =
          rw (r.incrby_stored s now counter cost counter, here, h.counts) refl in
        record {
          counts =
              rw (r.pexpire_stored hit now counter window_ms counter, here, counted, alive) refl;
          blocks =
              rw
                (
                  r.pexpire_stored hit now counter window_ms block,
                  apart,
                  r.incrby_stored s now counter cost block,
                  apart,
                )
                h.blocks;
        }

    counted_window :
        (s : r.State) (now cost count ends : ℕ)
        → Shows s now (record { counter = some (count, ends); block = none })
        → Shows
            (r.incrby s now counter cost).0
            now
            (record { counter = some (count + cost, ends); block = none })
    counted_window s now cost count ends h =
        let here = text_eq_refl counter in
        record {
          counts =
              rw
                (
                  r.incrby_stored s now counter cost counter,
                  here,
                  h.counts,
                  live_ends now count ends (r.stored s counter) h.counts,
                )
                refl;
          blocks = rw (r.incrby_stored s now counter cost block, apart) h.blocks;
        }

    count_hit-Refines :
        (s : r.State) (now limit window_ms block_ms cost : ℕ) (c : Option (ℕ × ℕ))
        → 0 < window_ms
        → IsCounting c
        → Shows s now (record { counter = c; block = none })
        → Refines
            (count_hit r s now counter block limit window_ms block_ms cost)
            now
            (conclude_window now limit block_ms (hit_counter now window_ms cost c))
    count_hit-Refines s now limit window_ms block_ms cost none positive counting h =
        let count : (r.incrby s now counter cost).1 ≡ cost =
          rw (r.incrby_count s now counter cost, h.counts) refl in
        let first : (cost == cost) ≡ true = ground arith in
        rw (count, first)
          (with_expiry-Refines (r.pexpire (r.incrby s now counter cost).0 now counter window_ms) now
            limit window_ms block_ms cost (now + window_ms)
            (opened_window s now window_ms cost positive h))
    count_hit-Refines s now limit window_ms block_ms cost (some (c, ends)) positive counting h =
        let count : (r.incrby s now counter cost).1 ≡ c + cost =
          rw (r.incrby_count s now counter cost, h.counts) refl in
        let later : (c + cost == cost) ≡ false = ground arith in
        rw (count, later)
          (with_expiry-Refines (r.incrby s now counter cost).0 now limit window_ms block_ms
            (c + cost) ends (counted_window s now cost c ends h))

    consume_by_block :
        (s : r.State) (now limit window_ms block_ms cost : ℕ) (c : Option (ℕ × ℕ)) (b : Option ℕ)
        → 0 < window_ms
        → IsCounting c
        → Shows s now (record { counter = c; block = b })
        → Refines
            (consume_script r s now counter block limit window_ms block_ms cost)
            now
            (hit_window now limit window_ms block_ms cost c b)
    unfolding consume_script
    consume_by_block s now limit window_ms block_ms cost c none positive counting h =
        rw (r.pttl_lem s now block, h.blocks)
          (count_hit-Refines s now limit window_ms block_ms cost c positive counting h)
    consume_by_block s now limit window_ms block_ms cost c (some ends) positive counting h =
        let alive = live_ends now 1 ends (r.stored s block) h.blocks in
        let blocked : is_positive (pos (ends - now)) ≡ true = ground arith in
        rw (r.pttl_lem s now block, h.blocks, blocked) (record { shows = h; replies = refl })

    -- On a Redis that behaves as documented, with two different keys and a window of positive
    -- length, CONSUME_SCRIPT replies and leaves the two keys as the abstract fixed window does,
    -- for any cost, at any time, from any open or closed window whose count is not zero, with or
    -- without a block.
    pub consume_script-Refines :
        (s : r.State) (now limit window_ms block_ms cost : ℕ) (w : Window)
        → 0 < window_ms
        → IsCounting w.counter
        → Shows s now w
        → Refines
            (consume_script r s now counter block limit window_ms block_ms cost)
            now
            (consume_window now limit window_ms block_ms cost w)
    consume_script-Refines s now limit window_ms block_ms cost w =
        consume_by_block s now limit window_ms block_ms cost w.counter w.block
