-- ===== src/RateLimit/Resolvers.antt =====
-- resolvers/*.ts and utils/read-body-string.util.ts: what a rule's identifier resolves to in a
-- request. `trim` and `toLowerCase` are parameters, and so is the key generator that a rule may carry.
use nest_backend.Common.{ℕ, Option, none, some, Bool, true, false, if◌then◌else◌, is_empty, take}
use nest_backend.Common.Text.{Text, codes}
use nest_backend.RateLimit.{
  RateLimitIdentifier, RateLimitRule, ip, device, user, session, email, username, verification_code,
  route, custom,
}

-- A parsed body: an object, by the string at each field that holds one, or anything else.
pub data Body : Type 0 where
  plain_object : (Text → Option Text) → Body
  no_object : Body

-- What the resolvers read of a request.
pub record Request : Type 0 where
  pub ip : Option Text
  pub device_id : Option Text
  pub user_id : Option Text
  pub session_id : Option Text
  pub body : Body

abbrev pub max_email_length : ℕ
max_email_length = 320

abbrev pub max_username_length : ℕ
max_username_length = 64

abbrev pub max_code_length : ℕ
max_code_length = 16

module _ (trim to_lower_case : Text → Text) where
  abbrev pub shortened : ℕ → Bool → Option Text → Option Text
  shortened max_length lowercase none = none
  shortened max_length lowercase (some raw) =
      let trimmed = take max_length (trim raw) in
      if is_empty trimmed then none else some (if lowercase then to_lower_case trimmed else trimmed)

  abbrev pub read_body_string : Body → Text → ℕ → Bool → Option Text
  read_body_string no_object field max_length lowercase = none
  read_body_string (plain_object string_at) field max_length lowercase =
      shortened max_length lowercase (string_at field)

  abbrev pub email_resolver : Request → Option Text
  email_resolver request = read_body_string request.body (codes "email") max_email_length true

  abbrev pub username_resolver : Request → Option Text
  username_resolver request =
      read_body_string request.body (codes "username") max_username_length true

  abbrev pub verification_code_resolver : Request → Option Text
  verification_code_resolver request =
      read_body_string request.body (codes "code") max_code_length false

abbrev pub ip_resolver : Request → Option Text
ip_resolver request = request.ip

abbrev pub device_id_resolver : Request → Option Text
device_id_resolver request = request.device_id

abbrev pub user_id_resolver : Request → Option Text
user_id_resolver request = request.user_id

abbrev pub session_id_resolver : Request → Option Text
session_id_resolver request = request.session_id

abbrev pub route_resolver : Text → Option Text
route_resolver route_key = some route_key

abbrev pub call_generator : Option (Request → Text → Option Text) → Request → Text → Option Text
call_generator none request route_key = none
call_generator (some generate) request route_key = generate request route_key

module _ (trim to_lower_case : Text → Text)
    (key_generator : RateLimitRule → Option (Request → Text → Option Text)) where
  abbrev pub custom_key_resolver : Request → Text → RateLimitRule → Option Text
  custom_key_resolver request route_key rule = call_generator (key_generator rule) request route_key

  -- The resolver that the registry finds for an identifier, applied to the request.
  abbrev pub resolve_as : RateLimitIdentifier → Request → Text → RateLimitRule → Option Text
  resolve_as ip request route_key rule = ip_resolver request
  resolve_as device request route_key rule = device_id_resolver request
  resolve_as user request route_key rule = user_id_resolver request
  resolve_as session request route_key rule = session_id_resolver request
  resolve_as email request route_key rule = email_resolver trim to_lower_case request
  resolve_as username request route_key rule = username_resolver trim to_lower_case request
  resolve_as verification_code request route_key rule =
      verification_code_resolver trim to_lower_case request
  resolve_as route request route_key rule = route_resolver route_key
  resolve_as custom request route_key rule = custom_key_resolver request route_key rule

  unfoldable pub resolve : Request → Text → RateLimitRule → Option Text
  resolve request route_key rule = resolve_as rule.identifier request route_key rule
