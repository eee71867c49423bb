-- ===== src/Profiles/Schemas.antt =====
-- createProfileSchema, updateProfileSchema and updateAssetsSchema of backend/src/app.ts. zod's email()
-- and url(), the SDK's test of a public key and toUpperCase are arguments.
pub mod Tests
use Prim.Native.Char.{code}
use Prim.Native.String.{[] as empty, ◌∷◌ as char_cons}
use nova_support.Base.{
  ℕ, Bool, true, false, ◌&&◌, ◌||◌, not, Option, none, some, List, [], ◌∷◌, String, str_eq, leb,
  ◌==◌, length,
}
use nova_support.Store.{AcceptedAsset, utf16_length, between, optionally, trim}
use nova_support.UrlValidator.{starts_with}

abbrev pub every : (ℕ → Bool) → String → Bool
every p empty = true
every p (char_cons c s) = p (code c) && every p s

abbrev is_lower_alnum : ℕ → Bool
is_lower_alnum c = between 48 57 c || between 97 122 c

abbrev is_alnum : ℕ → Bool
is_alnum c = is_lower_alnum c || between 65 90 c

-- `^[a-zA-Z0-9_]+$` of at most 15.
is_twitter_handle : String → Bool
is_twitter_handle s = between 1 15 (utf16_length s) && every (λ c. is_alnum c || c == 95) s

-- The end of `^[a-zA-Z0-9][a-zA-Z0-9.-]{0,37}[a-zA-Z0-9]$`, after its first character.
github_rest : String → Bool
github_rest empty = false
github_rest (char_cons c empty) = is_alnum (code c)
github_rest (char_cons c (char_cons d s)) =
    (is_alnum (code c) || code c == 45 || code c == 46) && github_rest (char_cons d s)

is_github_handle : String → Bool
unfolding github_rest
is_github_handle empty = false
is_github_handle (char_cons c s) =
    is_alnum (code c) && github_rest s && leb (utf16_length (char_cons c s)) 39

-- `.min(3).max(32).regex(/^[a-z0-9-]+$/)`
is_username : String → Bool
is_username s = between 3 32 (utf16_length s) && every (λ c. is_lower_alnum c || c == 45) s

-- The fields that both schemas have; an explicit null is an absent value of a nullable field.
pub record Details : Type 0 where
  pub display_name : String
  pub bio : String
  pub website_url : Option String
  pub twitter_handle : Option String
  pub github_handle : Option String

pub record CreateBody : Type 0 where
  pub username : String
  pub wallet_address : String
  pub email : Option String
  pub details : Details
  pub accepted_assets : List AcceptedAsset

abbrev all : (AcceptedAsset → Bool) → List AcceptedAsset → Bool
all p [] = true
all p (a ∷ rest) = p a && all p rest

-- A field that may be absent or null.
abbrev nullable : (String → Bool) → Option (Option String) → Bool
nullable ok none = true
nullable ok (some o) = optionally ok o

-- An absent field of the update keeps the column.
pub record UpdateBody : Type 0 where
  pub display_name : Option String
  pub bio : Option String
  pub email : Option (Option String)
  pub website_url : Option (Option String)
  pub twitter_handle : Option (Option String)
  pub github_handle : Option (Option String)

-- `[A-Z]{1,12}`
is_asset_code : String → Bool
is_asset_code s = between 1 12 (utf16_length s) && every (between 65 90) s

module _ (is_email is_url is_address : String → Bool) (to_upper : String → String) where
  abbrev is_website : String → Bool
  is_website s = is_url s && starts_with "https://" s

  -- The refinement: an issuer is required of all assets but XLM.
  abbrev has_issuer : Option String → Bool
  has_issuer none = false
  has_issuer (some s) = not (str_eq (trim s) "")

  is_created_asset : AcceptedAsset → Bool
  is_created_asset a =
      between 1 12 (utf16_length a.code)
      && optionally is_address a.issuer
      && (str_eq (to_upper a.code) "XLM" || has_issuer a.issuer)

  pub create_profile_schema : CreateBody → Bool
  unfolding is_username is_twitter_handle is_github_handle is_created_asset
  create_profile_schema b =
      is_username b.username
      && between 1 64 (utf16_length b.details.display_name)
      && leb (utf16_length b.details.bio) 280
      && is_address b.wallet_address
      && optionally is_email b.email
      && optionally is_website b.details.website_url
      && optionally is_twitter_handle b.details.twitter_handle
      && optionally is_github_handle b.details.github_handle
      && leb 1 (length b.accepted_assets)
      && all is_created_asset b.accepted_assets

  pub update_profile_schema : UpdateBody → Bool
  unfolding is_twitter_handle is_github_handle
  update_profile_schema b =
      optionally (λ s. between 1 64 (utf16_length s)) b.display_name
      && optionally (λ s. leb (utf16_length s) 280) b.bio
      && nullable is_email b.email
      && nullable is_website b.website_url
      && nullable is_twitter_handle b.twitter_handle
      && nullable is_github_handle b.github_handle

  is_updated_asset : AcceptedAsset → Bool
  unfolding is_asset_code
  is_updated_asset a =
      is_asset_code a.code
      && optionally is_address a.issuer
      && (str_eq a.code "XLM" || has_issuer a.issuer)

  pub update_assets_schema : List AcceptedAsset → Bool
  unfolding is_updated_asset
  update_assets_schema assets = between 1 50 (length assets) && all is_updated_asset assets
