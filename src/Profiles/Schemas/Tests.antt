-- ===== src/Profiles/Schemas/Tests.antt =====
-- Bodies that the schemas take.
use nova_support.Base.{◌≡◌, refl, Bool, true, none, some, [], ◌∷◌, String}
use nova_support.Store.{utf16_length}
use nova_support.Profiles.Schemas.{
  Details, CreateBody, UpdateBody, is_username, is_created_asset, create_profile_schema,
  update_profile_schema,
}

abbrev pub anything : String → Bool
anything s = true

abbrev pub upper : String → String
upper s = s

abbrev pub details : Details
details = record {
  display_name = "Ann";
  bio = "";
  website_url = none;
  twitter_handle = none;
  github_handle = none;
}

abbrev pub body : CreateBody
body = record {
  username = "ada-lovelace";
  wallet_address = "GA";
  email = some "a@x.org";
  details = details;
  accepted_assets = record { code = "XLM"; issuer = none } ∷ [];
}

abbrev pub change : UpdateBody
change = record {
  display_name = none;
  bio = none;
  email = some (some "new@x.org");
  website_url = none;
  twitter_handle = none;
  github_handle = none;
}

pub body_good : create_profile_schema anything anything anything upper body ≡ true
unfolding create_profile_schema is_username is_created_asset utf16_length
body_good = refl

pub change_good : update_profile_schema anything anything anything upper change ≡ true
unfolding update_profile_schema
change_good = refl
