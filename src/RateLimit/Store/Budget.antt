-- ===== src/RateLimit/Store/Budget.antt =====
-- Hits in the course of time: what a window allows, and how long a block lasts.
use nest_backend.Common.{
  ℕ, suc, ◌+◌, ◌-◌, ◌<◌, ◌≤◌, ◌≡◌, ◌⊎◌, refl, ◌∙◌, ap, Option, none, some, true, false,
  if◌then◌else◌, ltb, arith, Bool-cases, inl, inr, List, [], ◌∷◌, length, min,
}
use nest_backend.Common.Int.{pos}
use nest_backend.Common.Text.{Text, text_eq}
use nest_backend.RateLimit.Redis.{Redis, Entry, live, lives}
use nest_backend.RateLimit.Store.{Reply, consume_script}
use nest_backend.RateLimit.Store.Windows.{
  counter_entry, block_entry, IsCounting, conclude_window, hit_window,
}
use nest_backend.RateLimit.Store.Scripts.{Shows, Refines, consume_script-Refines}

abbrev pub open_at : ℕ → Option (ℕ × ℕ) → Option (ℕ × ℕ)
open_at now none = none
open_at now (some (count, ends)) = if ltb now ends then some (count, ends) else none

abbrev pub block_at : ℕ → Option ℕ → Option ℕ
block_at now none = none
block_at now (some ends) = if ltb now ends then some ends else none

live-none :
    (now later : ℕ) (e : Option Entry) → now ≤ later → live now e ≡ none → live later e ≡ none
live-none now later none le h = refl
live-none now later (some e) le h = ended e.expires refl
  where
    ended : (x : Option ℕ) → e.expires ≡ x → live later (some e) ≡ none
    ended none f = ground arith
    ended (some x) f = ground arith

live-some :
    (now later c x : ℕ) (e : Option Entry)
    → live now e ≡ some (record { value = c; expires = some x })
    → live later e ≡ (if ltb later x then some (record { value = c; expires = some x }) else none)
live-some now later c x none h = cc
live-some now later c x (some e) h = elim (Bool-cases (lives now e.expires)) [
  | inl alive ↦
      let same : some e ≡ some (record { value = c; expires = some x }) = rw alive at h in
      ap (live later) same
  | inr dead ↦ ground arith
]

counter_later :
    (now later : ℕ) (e : Option Entry) (c : Option (ℕ × ℕ))
    → now ≤ later
    → live now e ≡ counter_entry c
    → live later e ≡ counter_entry (open_at later c)
counter_later now later e none le h = live-none now later e le h
counter_later now later e (some (c, x)) le h = elim (Bool-cases (ltb later x)) [
  | inl alive ↦ rw alive (live-some now later c x e h ∙ rw alive refl)
  | inr ended ↦ rw ended (live-some now later c x e h ∙ rw ended refl)
]

block_later :
    (now later : ℕ) (e : Option Entry) (b : Option ℕ)
    → now ≤ later
    → live now e ≡ block_entry b
    → live later e ≡ block_entry (block_at later b)
block_later now later e none le h = live-none now later e le h
block_later now later e (some x) le h = elim (Bool-cases (ltb later x)) [
  | inl alive ↦ rw alive (live-some now later 1 x e h ∙ rw alive refl)
  | inr ended ↦ rw ended (live-some now later 1 x e h ∙ rw ended refl)
]

IsCounting-later : (later : ℕ) (c : Option (ℕ × ℕ)) → IsCounting c → IsCounting (open_at later c)
IsCounting-later later none h = tt
IsCounting-later later (some (c, x)) h = elim (Bool-cases (ltb later x)) [
  | inl alive ↦ rw alive h
  | inr ended ↦ rw ended tt
]

module _ (r : Redis) (counter block : Text) (apart : text_eq counter block ≡ false)
    (apart' : text_eq block counter ≡ false) where
  -- A window and a block end in the course of time.
  pub Shows-later :
      (s : r.State) (now later : ℕ) (c : Option (ℕ × ℕ)) (b : Option ℕ)
      → now ≤ later
      → Shows r counter block s now (record { counter = c; block = b })
      → Shows r counter block s later
          (record { counter = open_at later c; block = block_at later b })
  Shows-later s now later c b le h = record {
    counts = counter_later now later (r.stored s counter) c le h.counts;
    blocks = block_later now later (r.stored s block) b le h.blocks;
  }

  module _ (limit window_ms block_ms : ℕ) (positive : 0 < window_ms) where
    -- A hit, by CONSUME_SCRIPT at the time of the hit.
    abbrev pub hit : r.State → ℕ → ℕ → r.State × Reply
    hit s cost now = consume_script r s now counter block limit window_ms block_ms cost

    hit_later :
        (s : r.State) (now later cost : ℕ) (c : Option (ℕ × ℕ)) (b : Option ℕ)
        → now ≤ later
        → IsCounting c
        → Shows r counter block s now (record { counter = c; block = b })
        → Refines r counter block
            (hit s cost later)
            later
            (hit_window later limit window_ms block_ms cost (open_at later c) (block_at later b))
    hit_later s now later cost c b le counting h =
        consume_script-Refines r counter block apart apart' s later limit window_ms block_ms cost
          (record { counter = open_at later c; block = block_at later b }) positive
          (IsCounting-later later c counting) (Shows-later s now later c b le h)

    -- How many of the hits at these times, of cost 1, are allowed.
    abbrev pub allowed_hits : r.State → List ℕ → ℕ
    allowed_hits s [] = 0
    allowed_hits s (now ∷ times) = (hit s 1 now).1.allowed + allowed_hits (hit s 1 now).0 times

    -- Times in order, from `start` on and before `ends`.
    abbrev pub IsWithin : ℕ → ℕ → List ℕ → Type 0
    IsWithin start ends [] = Unit
    IsWithin start ends (now ∷ times) = (start ≤ now) × (now < ends) × IsWithin now ends times

    blocked_hits :
        (s : r.State) (start ends b : ℕ) (c : Option (ℕ × ℕ)) (times : List ℕ)
        → ends ≤ b
        → IsCounting c
        → Shows r counter block s start (record { counter = c; block = some b })
        → IsWithin start ends times
        → allowed_hits s times ≡ 0
    blocked_hits s start ends b c [] le counting h within = refl
    blocked_hits s start ends b c (now ∷ times) le counting h (from, to, rest) =
        let step = hit_later s start now 1 c (some b) from counting h in
        let alive : ltb now b ≡ true = ground arith in
        let next = rw alive at step in
        let denied : (hit s 1 now).1.allowed ≡ 0 =
          ap (λ (reply : Reply). reply.allowed) next.replies in
        omega (
          arith,
          denied,
          blocked_hits (hit s 1 now).0 now ends b (open_at now c) times le
              (IsCounting-later now c counting) next.shows rest,
        )

    module _ (lasting : (block_ms ≡ 0) ⊎ (window_ms ≤ block_ms)) where
      after_hit :
          (out : r.State × Reply) (now ends count : ℕ) (times : List ℕ)
          → 0 < count
          → ends ≤ now + window_ms
          → Refines r counter block out now (conclude_window now limit block_ms (count, ends))
          → IsWithin now ends times
          → (Shows r counter block out.0 now (record { counter = some (count, ends); block = none })
              → allowed_hits out.0 times ≡ min (length times) (limit - count))
          → out.1.allowed + allowed_hits out.0 times ≡ min (suc (length times)) (limit + 1 - count)
      after_hit out now ends count times counting near next rest go_on =
          elim (Bool-cases (ltb limit count)) [
            | inr within ↦
                let kept = rw within at next in
                let passed : out.1.allowed ≡ 1 =
                  ap (λ (reply : Reply). reply.allowed) kept.replies in
                let later = go_on kept.shows in
                let room : count ≤ limit = ground arith in omega (arith, passed, later)
            | inl over ↦ elim (Bool-cases (ltb 0 block_ms)) [
              | inr unblocked ↦
                  let kept = rw (over, unblocked) at next in
                  let denied : out.1.allowed ≡ 0 =
                    ap (λ (reply : Reply). reply.allowed) kept.replies in
                  let later = go_on kept.shows in
                  let spent : limit < count = ground arith in omega (arith, denied, later)
              | inl penal ↦
                  let kept = rw (over, penal) at next in
                  let denied : out.1.allowed ≡ 0 =
                    ap (λ (reply : Reply). reply.allowed) kept.replies in
                  let spent : limit < count = ground arith in
                  let some_block : 0 < block_ms = ground arith in
                  let covered : ends ≤ now + block_ms = omega arith in
                  let later =
                    blocked_hits out.0 now ends (now + block_ms) none times covered tt kept.shows
                      rest in
                  omega (arith, denied, later)
            ]
          ]

      open_hits :
          (s : r.State) (start ends count : ℕ) (times : List ℕ)
          → 0 < count
          → ends ≤ start + window_ms
          → Shows r counter block s start (record { counter = some (count, ends); block = none })
          → IsWithin start ends times
          → allowed_hits s times ≡ min (length times) (limit - count)
      open_hits s start ends count [] counting near h within = omega arith
      open_hits s start ends count (now ∷ times) counting near h (from, to, rest) =
          let step = hit_later s start now 1 (some (count, ends)) none from counting h in
          let alive : ltb now ends ≡ true = ground arith in
          let next = rw alive at step in
          let all_hits =
            after_hit (hit s 1 now) now ends (count + 1) times (omega arith) (omega arith) next rest
              (λ shows.
                open_hits (hit s 1 now).0 now ends (count + 1) times (omega arith) (omega arith)
                  shows rest) in
          omega (arith, all_hits)

      -- On a Redis that behaves as documented, with two different keys, a window of positive
      -- length and a block of length zero or at least as long as the window, the hits of cost 1 at
      -- any ordered times from the first one until the window ends are allowed by CONSUME_SCRIPT
      -- exactly as often as there are hits, up to the limit, when neither a window nor a block is
      -- open before.
      pub allowed_hits_lem :
          (s : r.State) (start now : ℕ) (times : List ℕ)
          → Shows r counter block s start (record { counter = none; block = none })
          → start ≤ now
          → IsWithin now (now + window_ms) times
          → allowed_hits s (now ∷ times) ≡ min (length (now ∷ times)) limit
      allowed_hits_lem s start now times h from within =
          let next = hit_later s start now 1 none none from tt h in
          let all_hits =
            after_hit (hit s 1 now) now (now + window_ms) 1 times (omega arith) (omega arith) next
              within
              (λ shows.
                open_hits (hit s 1 now).0 now (now + window_ms) 1 times (omega arith) (omega arith)
                  shows within) in
          omega (arith, all_hits)

    -- The reply to a hit on a fresh window.
    abbrev pub fresh_reply : ℕ → Reply
    fresh_reply cost = record {
      allowed = 1;
      count = pos cost;
      reset_after_ms = pos window_ms;
      blocked = 0;
    }
