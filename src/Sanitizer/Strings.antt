-- ===== src/Sanitizer/Strings.antt =====
-- sanitizeString of backend/src/middleware/sanitize.ts, with the tables of fields.
use nova_support.Base.{
  ℕ, Bool, false, ◌&&◌, ◌||◌, not, Option, none, some, List, [], ◌∷◌, ◌++◌, String, any, filter,
  take, length, leb, ltb, ◌==◌, str_eq, if◌then◌else◌, is_some,
}
use nova_support.Sanitizer.Units.{Text, same, between, trim}
use nova_support.Sanitizer.Urls.{
  Violation, too_long, html_removed, null_bytes, control_characters, unicode_normalized, ParsedUrl,
  Address, normalize_url,
}
use nova_support.Sanitizer.Handles.{sanitize_social_handle, validate_email}

abbrev pub is_among : List String → String → Bool
is_among keys key = any (str_eq key) keys

unfoldable pub is_html_content : String → Bool
is_html_content key =
    is_among
      ("bio" ∷ "message" ∷ "description" ∷ "displayName" ∷ "title" ∷ "name" ∷ "username" ∷ []) key

unfoldable pub is_url_field : String → Bool
is_url_field key = is_among ("websiteUrl" ∷ "avatarUrl" ∷ "webhookUrl" ∷ "url" ∷ []) key

unfoldable pub is_social_handle : String → Bool
is_social_handle key = is_among ("twitterHandle" ∷ "githubHandle" ∷ []) key

unfoldable pub is_email_field : String → Bool
is_email_field key = is_among ("email" ∷ []) key

unfoldable pub is_lowercase : String → Bool
is_lowercase key = is_among ("username" ∷ "email" ∷ []) key

abbrev max_lengths : List (String × ℕ)
max_lengths =
    ("bio", 280)
    ∷ ("message", 280)
    ∷ ("description", 1000)
    ∷ ("displayName", 64)
    ∷ ("title", 200)
    ∷ ("username", 32)
    ∷ ("twitterHandle", 15)
    ∷ ("githubHandle", 39)
    ∷ ("url", 2048)
    ∷ []

unfoldable pub lookup_max : String → List (String × ℕ) → Option ℕ
lookup_max key [] = none
lookup_max key ((k, n) ∷ ms) = if str_eq k key then some n else lookup_max key ms

unfoldable pub max_length : String → Option ℕ
unfolding lookup_max
max_length key = lookup_max key max_lengths

-- `MAX_LENGTHS[key]` also finds what the table inherits from Object.prototype. That is no number, so no
-- length is above it.
abbrev is_inherited : String → Bool
is_inherited key =
    is_among
      ("constructor" ∷ "__proto__" ∷ "hasOwnProperty" ∷ "isPrototypeOf" ∷ "propertyIsEnumerable"
        ∷ "toLocaleString" ∷ "toString" ∷ "valueOf" ∷ "__defineGetter__" ∷ "__defineSetter__"
        ∷ "__lookupGetter__" ∷ "__lookupSetter__" ∷ [])
      key

unfoldable pub is_known_field : String → Bool
unfolding is_html_content is_url_field is_social_handle is_email_field is_lowercase max_length
is_known_field key =
    is_html_content key
    || is_url_field key
    || is_social_handle key
    || is_email_field key
    || is_lowercase key
    || is_some (max_length key)
    || is_inherited key

-- A result with whether it differs, and the violations.
pub record Sanitized {ℓ} (A : Type ℓ) : Type ℓ where
  pub result : A
  pub changed : Bool
  pub violations : List Violation

abbrev pub unchanged {ℓ} : {A : Type ℓ} → A → Sanitized A
unchanged a = record { result = a; changed = false; violations = [] }

abbrev pub wrap {ℓ κ} : {A : Type ℓ} {B : Type κ} → (A → B) → Sanitized A → Sanitized B
wrap f s = record { result = f s.result; changed = s.changed; violations = s.violations }

abbrev pub both {ℓ κ ι} :
    {A : Type ℓ} {B : Type κ} {C : Type ι} → (A → B → C) → Sanitized A → Sanitized B → Sanitized C
both f s t = record {
  result = f s.result t.result;
  changed = s.changed || t.changed;
  violations = s.violations ++ t.violations;
}

pub record Libs : Type 0 where
  pub to_lower : Text → Text
  pub strip_html : Text → Text
  pub nfc : Text → Text
  pub parse : Text → Option ParsedUrl
  pub address : Text → Address

-- A step of the pipeline: the text so far and the violations of the step.
abbrev pub Step : Type 0
Step = Text × List Violation

unfoldable pub cut : Option ℕ → Text → Step
cut none t = (t, [])
cut (some n) t = if ltb n (length t) then (take n t, too_long ∷ []) else (t, [])

-- `[\x00-\x08\x0B\x0C\x0E-\x1F\x7F]`, and with the carriage return for a single line.
abbrev pub is_control : Bool → ℕ → Bool
is_control newlines c =
    leb c 8 || c == 11 || c == 12 || between 14 31 c || c == 127 || (not newlines && c == 13)

abbrev pub allows_newlines : String → Bool
allows_newlines key = is_among ("bio" ∷ "message" ∷ "description" ∷ []) key

-- `replace(regex, "")` with its violation, when the text has a unit of the class.
unfoldable pub remove_units : (ℕ → Bool) → Violation → Text → Step
remove_units p v t = if any p t then (filter (λ c. not (p c)) t, v ∷ []) else (t, [])

module _ (libs : Libs) where
  open libs use {to_lower, strip_html, nfc, parse, address}

  unfoldable pub lowered : String → Text → Text
  unfolding is_lowercase
  lowered key t = if is_lowercase key then to_lower t else t

  unfoldable pub html_step : String → Text → Step
  unfolding is_html_content
  html_step key t =
      if is_html_content key && not (same (strip_html t) t)
      then (strip_html t, html_removed ∷ [])
      else (t, [])

  abbrev cleared : Text → Option Text × List Violation → Step
  cleared t (some url, vs) = (url, vs)
  cleared t (none, []) = (t, [])
  cleared t (none, v ∷ vs) = ([], v ∷ vs)

  unfoldable pub url_step : String → Text → Step
  unfolding normalize_url is_url_field
  url_step key t =
      if is_url_field key && ltb 0 (length t)
      then cleared t (normalize_url to_lower parse address t)
      else (t, [])

  unfoldable pub handle_step : String → Text → Step
  unfolding sanitize_social_handle is_social_handle
  handle_step key t =
      if is_social_handle key && ltb 0 (length t) then sanitize_social_handle key t else (t, [])

  unfoldable pub email_step : String → Text → Step
  unfolding validate_email is_email_field
  email_step key t =
      if is_email_field key && ltb 0 (length t) then validate_email to_lower t else (t, [])

  unfoldable pub nfc_step : Text → Step
  nfc_step t = if same (nfc t) t then (t, []) else (nfc t, unicode_normalized ∷ [])

  abbrev pub then_step : Step → (Text → Step) → Step
  then_step (t, vs) f = let (u, ws) = f t in (u, vs ++ ws)

  -- The checks at the end, on a text that is not empty.
  unfoldable pub security_steps : String → Text → Step
  security_steps key [] = ([], [])
  security_steps key (c ∷ cs) =
      then_step
        (then_step (remove_units (λ d. d == 0) null_bytes (c ∷ cs))
          (remove_units (is_control (allows_newlines key)) control_characters))
        nfc_step

  -- The steps on the trimmed text that a field's own rules ask for.
  unfoldable pub field_steps : String → Text → Step
  field_steps key t =
      then_step
        (then_step
          (then_step (then_step (cut (max_length key) (lowered key t)) (html_step key))
            (url_step key))
          (handle_step key))
        (email_step key)

  unfoldable pub string_steps : String → Text → Step
  string_steps key value = then_step (field_steps key (trim value)) (security_steps key)

  unfoldable pub sanitize_string : String → Text → Sanitized Text
  sanitize_string key value =
      let (result, violations) = string_steps key value in
      record { result = result; changed = not (same result value); violations = violations }
