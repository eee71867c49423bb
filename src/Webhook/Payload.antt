-- ===== src/Webhook/Payload.antt =====
-- backend/src/services/webhook.ts: the canonical JSON of a payload, which is the body that is sent, and
-- its signature. Texts are lists of UTF-16 units. `number_text` stands for the language's printing of
-- numbers and `hmac` for node's SHA-256 digest in hexadecimal.
pub mod Order
pub mod Reorder
mod Signed
mod Tests
use nova_support.Base.{
  ℕ, ◌+◌, ◌/◌, ◌%◌, Bool, true, false, ◌&&◌, ◌||◌, Option, none, some, List, [], ◌∷◌, ◌++◌, map,
  ltb, leb, ◌==◌, if◌then◌else◌, length,
}
use nova_support.Sanitizer.Units.{Text, units, same, between}

-- A value of JSON. An object lists its properties in the order of their insertion.
mutual
  pub data Json : Type 0 where
    null : Json
    bool : Bool → Json
    number : ℕ → Json
    text : Text → Json
    array : Items → Json
    object : Fields → Json

  pub data Items : Type 0 where
    nil : Items
    cons : Json → Items → Items

  pub data Fields : Type 0 where
    end : Fields
    field : Text → Json → Fields → Fields

-- The order of `Array.prototype.sort` on texts, by their units.
pub text_leb : Text → Text → Bool
text_leb [] t = true
text_leb (c ∷ s) [] = false
text_leb (c ∷ s) (d ∷ t) = if ltb c d then true else (c == d) && text_leb s t

pub insert : Text → List Text → List Text
unfolding text_leb
insert k [] = k ∷ []
insert k (l ∷ ls) = if text_leb k l then k ∷ l ∷ ls else l ∷ insert k ls

pub sort : List Text → List Text
unfolding insert
sort [] = []
sort (k ∷ ks) = insert k (sort ks)

pub get : Text → List (Text × Text) → Option Text
get k [] = none
get k ((l, v) ∷ m) = if same l k then some v else get k m

hex_digit : ℕ → ℕ
hex_digit d = if ltb d 10 then 48 + d else 87 + d

-- `\uXXXX`
escaped : ℕ → Text
unfolding hex_digit
escaped c =
    92
    ∷ 117
    ∷ hex_digit (c / 4096)
    ∷ hex_digit (c / 256 % 16)
    ∷ hex_digit (c / 16 % 16)
    ∷ hex_digit (c % 16)
    ∷ []

-- A unit of a text that is no surrogate.
quote_unit : ℕ → Text
unfolding escaped
quote_unit c =
    if c == 34 || c == 92
    then 92 ∷ c ∷ []
    else if c == 8
    then units "\\b"
    else if c == 9
    then units "\\t"
    else if c == 10
    then units "\\n"
    else if c == 12
    then units "\\f"
    else if c == 13
    then units "\\r"
    else if ltb c 32
    then escaped c
    else c ∷ []

abbrev starts_low : Text → Bool
starts_low [] = false
starts_low (d ∷ s) = between 56320 57343 d

-- `paired` says that the unit before is the first of a pair; a surrogate alone is escaped.
quote_units : Bool → Text → Text
unfolding quote_unit escaped
quote_units paired [] = []
quote_units paired (c ∷ s) =
    if between 55296 56319 c
    then (if starts_low s then c ∷ [] else escaped c) ++ quote_units (starts_low s) s
    else (if between 56320 57343 c then (if paired then c ∷ [] else escaped c) else quote_unit c)
      ++ quote_units false s

-- JSON.stringify on a text.
pub quote : Text → Text
unfolding quote_units
quote s = 34 ∷ (quote_units false s ++ (34 ∷ []))

abbrev or_undefined : Option Text → Text
or_undefined none = units "undefined"
or_undefined (some v) = v

-- `parts.join(",")`
abbrev pub join : List Text → Text
join [] = []
join (t ∷ []) = t
join (t ∷ u ∷ ts) = t ++ (44 ∷ join (u ∷ ts))

-- The parts of an object: its properties' canonical texts `m`, at the keys in order.
pub parts : List (Text × Text) → List Text → List Text
unfolding quote get
parts m [] = []
parts m (k ∷ ks) = (quote k ++ (58 ∷ or_undefined (get k m))) ∷ parts m ks

-- Object.keys
abbrev pub keys : Fields → List Text
keys end = []
keys (field k v fs) = k ∷ keys fs

module _ (number_text : ℕ → Text) where
  mutual
    pub canonical_json_stringify : Json → Text
    canonical_json_stringify null = units "null"
    canonical_json_stringify (bool b) = if b then units "true" else units "false"
    canonical_json_stringify (number n) = number_text n
    canonical_json_stringify (text s) = quote s
    canonical_json_stringify (array xs) = 91 ∷ (join (canonical_items xs) ++ (93 ∷ []))
    canonical_json_stringify (object fs) =
        123 ∷ (join (parts (canonical_fields fs) (sort (keys fs))) ++ (125 ∷ []))

    pub canonical_items : Items → List Text
    canonical_items nil = []
    canonical_items (cons x xs) = canonical_json_stringify x ∷ canonical_items xs

    pub canonical_fields : Fields → List (Text × Text)
    canonical_fields end = []
    canonical_fields (field k v fs) = (k, canonical_json_stringify v) ∷ canonical_fields fs

  module _ (hmac : Text → Text → Text) where
    pub generate_signature : Text → Json → Text
    unfolding canonical_json_stringify
    generate_signature secret payload = hmac secret (canonical_json_stringify payload)

    -- The digest is ASCII, so timingSafeEqual compares the texts.
    pub verify_signature : Text → Json → Text → Bool
    unfolding generate_signature
    verify_signature secret payload signature =
        let expected = generate_signature secret payload in
        length expected == length signature && same expected signature
