-- ===== src/RateLimit/Redis.antt =====
-- The commands of Redis that the rate limiter's scripts call, as an interface with their documented
-- behaviour. A script runs at one instant, `now`, in milliseconds.
use nest_backend.Common.{ℕ, ◌+◌, ◌-◌, ◌≡◌, refl, Option, none, some, Bool, true, if◌then◌else◌, ltb}
use nest_backend.Common.Int.{ℤ, pos, negsuc}
use nest_backend.Common.Text.{Text, text_eq}

-- A number, and the instant at which it expires.
pub record Entry : Type 0 where
  pub value : ℕ
  pub expires : Option ℕ

abbrev pub lives : ℕ → Option ℕ → Bool
lives now none = true
lives now (some expires) = ltb now expires

-- An expired entry counts as absent.
abbrev pub live : ℕ → Option Entry → Option Entry
live now none = none
live now (some entry) = if lives now entry.expires then some entry else none

abbrev pub value_of : Option Entry → Option ℕ
value_of none = none
value_of (some entry) = some entry.value

abbrev pub time_left : ℕ → Option ℕ → ℤ
time_left now none = negsuc 0
time_left now (some expires) = pos (expires - now)

-- The reply of PTTL: -2 without the key, -1 without an expiry.
abbrev pub ttl_of : ℕ → Option Entry → ℤ
ttl_of now none = negsuc 1
ttl_of now (some entry) = time_left now entry.expires

abbrev pub incremented : ℕ → Option Entry → Entry
incremented n none = record { value = n; expires = none }
incremented n (some entry) = record { value = entry.value + n; expires = entry.expires }

abbrev pub expiring : ℕ → Option Entry → Option Entry
expiring at none = none
expiring at (some entry) = some (record { value = entry.value; expires = some at })

pub record Redis : Type 1 where
  pub State : Type 0
  pub stored : State → Text → Option Entry
  pub get : State → ℕ → Text → Option ℕ
  pub pttl : State → ℕ → Text → ℤ
  pub incrby : State → ℕ → Text → ℕ → State × ℕ
  pub pexpire : State → ℕ → Text → ℕ → State
  pub set_px : State → ℕ → Text → ℕ → ℕ → State
  pub del : State → Text → State
  pub get_lem : (s : State) (now : ℕ) (k : Text) → get s now k ≡ value_of (live now (stored s k))
  pub pttl_lem :
      (s : State) (now : ℕ) (k : Text) → pttl s now k ≡ ttl_of now (live now (stored s k))
  pub incrby_count :
      (s : State) (now : ℕ) (k : Text) (n : ℕ)
      → (incrby s now k n).1 ≡ (incremented n (live now (stored s k))).value
  pub incrby_stored :
      (s : State) (now : ℕ) (k : Text) (n : ℕ) (k' : Text)
      → stored (incrby s now k n).0 k'
        ≡ (if text_eq k k' then some (incremented n (live now (stored s k))) else stored s k')
  pub pexpire_stored :
      (s : State) (now : ℕ) (k : Text) (ms : ℕ) (k' : Text)
      → stored (pexpire s now k ms) k'
        ≡ (if text_eq k k' then expiring (now + ms) (live now (stored s k)) else stored s k')
  pub set_px_stored :
      (s : State) (now : ℕ) (k : Text) (v ms : ℕ) (k' : Text)
      → stored (set_px s now k v ms) k' ≡ (
          if text_eq k k'
          then some (record { value = v; expires = some (now + ms) })
          else stored s k')
  pub del_stored :
      (s : State) (k k' : Text) → stored (del s k) k' ≡ (if text_eq k k' then none else stored s k')

abbrev pub put : (Text → Option Entry) → Text → Option Entry → Text → Option Entry
put s k e k' = if text_eq k k' then e else s k'

-- A store that behaves as documented.
abbrev pub plain_redis : Redis
plain_redis = record {
  State = Text → Option Entry;
  stored = λ s k. s k;
  get = λ s now k. value_of (live now (s k));
  pttl = λ s now k. ttl_of now (live now (s k));
  incrby = λ s now k n.
      (put s k (some (incremented n (live now (s k)))), (incremented n (live now (s k))).value);
  pexpire = λ s now k ms. put s k (expiring (now + ms) (live now (s k)));
  set_px = λ s now k v ms. put s k (some (record { value = v; expires = some (now + ms) }));
  del = λ s k. put s k none;
  get_lem = λ s now k. refl;
  pttl_lem = λ s now k. refl;
  incrby_count = λ s now k n. refl;
  incrby_stored = λ s now k n k'. refl;
  pexpire_stored = λ s now k ms k'. refl;
  set_px_stored = λ s now k v ms k'. refl;
  del_stored = λ s k k'. refl;
}
