-- ===== src/Milestones/Schemas.antt =====
-- What the bodies of the milestone routes of backend/src/app.ts must be: createMilestoneSchema, and its
-- partial form for a change.
use nova_support.Base.{ℕ, Bool, ◌&&◌, Option, none, some, String, leb, if◌then◌else◌}
use nova_support.Store.{parse_amount, utf16_length, between, optionally, trim}

pub record MilestoneBody : Type 0 where
  pub title : String
  pub description : Option String
  pub target_amount : String
  pub asset_code : Option String
  pub asset_issuer : Option String

pub record NewMilestone : Type 0 where
  pub title : String
  pub description : Option String
  pub target_amount : ℕ
  pub asset_code : String
  pub asset_issuer : Option String

-- `z.string().trim().min(1).max(100)` and the other fields' schemas.
unfoldable pub is_title : String → Bool
unfolding utf16_length
is_title s = between 1 100 (utf16_length s)

unfoldable pub is_asset_code : String → Bool
unfolding utf16_length
is_asset_code s = between 1 12 (utf16_length s)

unfoldable pub is_description : Option String → Bool
unfolding utf16_length
is_description d = optionally (λ s. leb (utf16_length s) 500) d

abbrev pub or_xlm : Option String → String
or_xlm none = "XLM"
or_xlm (some code) = code

unfoldable pub create_milestone_schema : (String → Bool) → MilestoneBody → Option NewMilestone
unfolding is_title is_asset_code is_description parse_amount trim
create_milestone_schema is_key b = elim (parse_amount b.target_amount) [
  | none ↦ none
  | some target ↦
      if is_title (trim b.title)
        && is_description b.description
        && is_asset_code (or_xlm b.asset_code)
        && optionally is_key b.asset_issuer
      then some (record {
        title = trim b.title;
        description = b.description;
        target_amount = target;
        asset_code = or_xlm b.asset_code;
        asset_issuer = b.asset_issuer;
      })
      else none
]

-- A field of a PATCH body that may be absent, and for the nullable ones `null`.
pub record MilestonePatch : Type 0 where
  pub title : Option String
  pub description : Option (Option String)
  pub target_amount : Option String
  pub asset_code : Option String
  pub asset_issuer : Option (Option String)

pub record Changes : Type 0 where
  pub title : Option String
  pub description : Option (Option String)
  pub target_amount : Option ℕ
  pub asset_code : Option String
  pub asset_issuer : Option (Option String)

abbrev pub or_keep {ℓ} : {A : Type ℓ} → Option A → A → A
or_keep none a = a
or_keep (some b) a = b

-- An absent amount passes; `none` is an amount that does not.
abbrev pub parse_optional : Option String → Option (Option ℕ)
parse_optional none = some none
parse_optional (some s) = elim (parse_amount s) [ none ↦ none | some n ↦ some (some n) ]

abbrev pub trimmed : Option String → Option String
trimmed none = none
trimmed (some s) = some (trim s)

-- `createMilestoneSchema.partial()`: an absent asset code stays absent.
unfoldable pub patch_schema : (String → Bool) → MilestonePatch → Option Changes
unfolding is_title is_asset_code is_description parse_amount trim
patch_schema is_key b = elim (parse_optional b.target_amount) [
  | none ↦ none
  | some target ↦
      if optionally is_title (trimmed b.title)
        && is_description (or_keep b.description none)
        && optionally is_asset_code b.asset_code
        && optionally is_key (or_keep b.asset_issuer none)
      then some (record {
        title = trimmed b.title;
        description = b.description;
        target_amount = target;
        asset_code = b.asset_code;
        asset_issuer = b.asset_issuer;
      })
      else none
]
