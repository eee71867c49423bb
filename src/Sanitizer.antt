-- ===== src/Sanitizer.antt =====
-- backend/src/middleware/sanitize.ts: the middlewares that clean request bodies and queries. Texts
-- are lists of UTF-16 units; the sanitize-html library, toLowerCase, Unicode's normal form, `new URL`,
-- node's reading of addresses and validatePublicUrl are arguments. The paths that label the violations
-- in the log are left out.
pub mod Units
mod Urls
mod Handles
mod Strings
mod Clean
mod Formats
mod PublicUrls
mod Tests
unfoldable pub use Urls.*
unfoldable pub use Handles.*
unfoldable pub use Strings.*
use Prim.Native.String
use nova_support.Base.{
  ℕ, zero, suc, ◌+◌, Bool, true, false, ◌&&◌, ◌||◌, not, Option, none, some, List, [], ◌∷◌, ◌++◌,
  String, str_eq, is_some, length, leb, ltb, ◌==◌, if◌then◌else◌,
}
use nova_support.Sanitizer.Units.{Text}

-- A parsed body. `undefined` does not occur in it. JSON.parse makes a field of every key, also of
-- "__proto__"; `proto` is a prototype that an assignment gave the object.
mutual
  pub data Json : Type 0 where
    null : Json
    bool : Bool → Json
    number : ℕ → Json
    text : Text → Json
    array : Items → Json
    object : Fields → Json

  pub data Items : Type 0 where
    nil : Items
    cons : Json → Items → Items

  pub data Fields : Type 0 where
    end : Fields
    field : String → Json → Fields → Fields
    proto : Json → Fields → Fields

-- The rules for the items of a known field's array, and those of "message" for others.
pub item_key : Option String → String
unfolding is_known_field
item_key none = "message"
item_key (some key) = if is_known_field key then key else "message"

-- The setter of "__proto__": only null and an object, an array among them, become the prototype.
pub set_proto : Json → Fields → Fields
set_proto null fs = proto null fs
set_proto (array xs) fs = proto (array xs) fs
set_proto (object gs) fs = proto (object gs) fs
set_proto (bool b) fs = fs
set_proto (number n) fs = fs
set_proto (text t) fs = fs

-- `result[key] = r`
pub assign : String → Json → Fields → Fields
unfolding set_proto
assign k v fs = if str_eq k "__proto__" then set_proto v fs else field k v fs

module _ (libs : Libs) where
  -- A text of an array or an object by the rules of its key, and else the nested result.
  pub text_or : String → Json → Sanitized Json → Sanitized Json
  unfolding sanitize_string
  text_or key (text t) nested = wrap text (sanitize_string libs key t)
  text_or key null nested = nested
  text_or key (bool b) nested = nested
  text_or key (number n) nested = nested
  text_or key (array xs) nested = nested
  text_or key (object fs) nested = nested

  -- `depth` counts up; a value deeper than 10 is returned as it is.
  mutual
    unfolding text_or item_key assign

    pub sanitize_object : ℕ → Option String → Json → Sanitized Json
    sanitize_object depth parent null = unchanged null
    sanitize_object depth parent (bool b) = unchanged (bool b)
    sanitize_object depth parent (number n) = unchanged (number n)
    sanitize_object depth parent (text t) = unchanged (text t)
    sanitize_object depth parent (array xs) =
        let inner = sanitize_items depth parent xs in
        if ltb 10 depth then unchanged (array xs) else wrap array inner
    sanitize_object depth parent (object fs) =
        let inner = sanitize_fields depth fs in
        if ltb 10 depth then unchanged (object fs) else wrap object inner

    pub sanitize_items : ℕ → Option String → Items → Sanitized Items
    sanitize_items depth parent nil = unchanged nil
    sanitize_items depth parent (cons x xs) =
        both cons (text_or (item_key parent) x (sanitize_object (suc depth) parent x))
          (sanitize_items depth parent xs)

    pub sanitize_fields : ℕ → Fields → Sanitized Fields
    sanitize_fields depth end = unchanged end
    sanitize_fields depth (field k v fs) =
        both (assign k) (text_or k v (sanitize_object (suc depth) (some k) v))
          (sanitize_fields depth fs)
    sanitize_fields depth (proto v fs) = sanitize_fields depth fs

-- What a URL field holds after validatePublicUrl, `violation` being its answer.
abbrev pub or_cleared : Option Violation → Text → Text
or_cleared none t = t
or_cleared (some v) t = []

-- collectUrls and the loop over what it found: the texts of URL fields of objects, at any depth.
-- Object.entries does not see a prototype.
module _ (validate_public_url : Text → Option Violation) where
  pub check_text : String → Json → Json → Json
  check_text k (text t) nested =
      if is_url_field k then text (or_cleared (validate_public_url t) t) else text t
  check_text k null nested = nested
  check_text k (bool b) nested = nested
  check_text k (number n) nested = nested
  check_text k (array xs) nested = nested
  check_text k (object fs) nested = nested

  mutual
    unfolding check_text

    pub check_urls : Json → Json
    check_urls null = null
    check_urls (bool b) = bool b
    check_urls (number n) = number n
    check_urls (text t) = text t
    check_urls (array xs) = array (check_items xs)
    check_urls (object fs) = object (check_fields fs)

    pub check_items : Items → Items
    check_items nil = nil
    check_items (cons x xs) = cons (check_urls x) (check_items xs)

    pub check_fields : Fields → Fields
    check_fields end = end
    check_fields (field k v fs) = field k (check_text k v (check_urls v)) (check_fields fs)
    check_fields (proto v fs) = proto v (check_fields fs)

  -- What `req.body` is for the routes.
  pub sanitize_body : Libs → Json → Json
  unfolding sanitize_object check_urls
  sanitize_body libs (object fs) = check_urls (sanitize_object libs 0 none (object fs)).result
  sanitize_body libs (array xs) = check_urls (sanitize_object libs 0 none (array xs)).result
  sanitize_body libs j = j

-- A query's value: a text, an array, or what the parser nests.
pub data QueryValue : Type 0 where
  one : Text → QueryValue
  many : List (Option Text) → QueryValue
  other : Json → QueryValue

module _ (libs : Libs) where
  -- The items of an array under the key `${key}_item`; `none` is an item that is no text.
  pub sanitize_query_items : String → List (Option Text) → Sanitized (List (Option Text))
  unfolding sanitize_string
  sanitize_query_items item [] = unchanged []
  sanitize_query_items item (none ∷ xs) = both ◌∷◌ (unchanged none) (sanitize_query_items item xs)
  sanitize_query_items item (some t ∷ xs) =
      both ◌∷◌ (wrap some (sanitize_string libs item t)) (sanitize_query_items item xs)

  pub sanitize_query_value : String → QueryValue → Sanitized QueryValue
  unfolding sanitize_query_items
  sanitize_query_value key (one t) = wrap one (sanitize_string libs key t)
  sanitize_query_value key (many xs) =
      wrap many (sanitize_query_items (Prim.Native.String.◌++◌ key "_item") xs)
  sanitize_query_value key (other j) = unchanged (other j)

  pub sanitize_entries : List (String × QueryValue) → Sanitized (List (String × QueryValue))
  unfolding sanitize_query_value
  sanitize_entries [] = unchanged []
  sanitize_entries ((k, v) ∷ q) =
      both ◌∷◌ (wrap (λ w. (k, w)) (sanitize_query_value k v)) (sanitize_entries q)

  -- `req.query` is only replaced by a query that changed.
  pub sanitize_query : List (String × QueryValue) → List (String × QueryValue)
  unfolding sanitize_entries
  sanitize_query q = let s = sanitize_entries q in if s.changed then s.result else q
