-- ===== src/EventIndexer/Orphans.antt =====
-- Orphans and their profiles (resolveOrphans).
use nova_support.Base.{
  ℕ, ◌+◌, ◌≡◌, refl, ◌≢◌, Bool, false, ◌&&◌, not, none, List, [], ◌∷◌, String, arith, str_eq, count,
  All, All-filter, eq_iff, map, if◌then◌else◌, is_some, filter, take, any,
}
use nova_support.Base.JsMap.{get}
use nova_support.EventIndexer.{Db, Transaction, orphan}

abbrev pub is_orphan : Transaction → Bool
is_orphan t = str_eq t.profile_id orphan

-- updateMany of the orphans of one address.
resolve_address : String → String → List Transaction → List Transaction × ℕ
resolve_address address profile [] = ([], 0)
resolve_address address profile (t ∷ ts) =
    let (ts', n) = resolve_address address profile ts in
    if is_orphan t && str_eq t.recipient_address address
    then (record t { profile_id = profile } ∷ ts', n + 1)
    else (t ∷ ts', n)

pub resolve_each : List (String × String) → List Transaction → List Transaction × ℕ
unfolding resolve_address
resolve_each [] ts = (ts, 0)
resolve_each ((address, profile) ∷ profiles) ts =
    let (ts', n) = resolve_address address profile ts in
    let (ts'', k) = resolve_each profiles ts' in (ts'', n + k)

abbrev pub addresses_of : List Transaction → List String
addresses_of ts = map (λ t. t.recipient_address) ts

abbrev pub mem_address : String → List String → Bool
mem_address a = any λ b. str_eq b a

-- The profiles that the query finds, for the addresses of the first 100 orphans.
abbrev pub found_profiles : Db → List (String × String)
found_profiles db =
    filter (λ p. mem_address p.0 (addresses_of (take 100 (filter is_orphan db.transactions))))
      db.profiles

pub resolve_orphans : Db → Db × ℕ
unfolding resolve_each
resolve_orphans db =
    let (ts, n) = resolve_each (found_profiles db) db.transactions in
    (record db { transactions = ts }, n)

-- What of a row no resolution touches.
abbrev pub core : Transaction → String × String × String
core t = (t.tx_hash, t.amount, t.recipient_address)

-- The orphans whose address is not in the table of profiles.
abbrev pub left_over : List (String × String) → Transaction → Bool
left_over profiles t = is_orphan t && not (is_some (get t.recipient_address profiles))

resolve_address-count :
    (address profile : String) (ts : List Transaction)
    → profile ≢ orphan
    → count is_orphan (resolve_address address profile ts).0
        + (resolve_address address profile ts).1
      ≡ count is_orphan ts
unfolding resolve_address
resolve_address-count address profile [] ne = ground arith
resolve_address-count address profile (t ∷ ts) ne =
    ground (arith, eq_iff profile orphan, resolve_address-count address profile ts ne)

resolve_address-left :
    (address profile : String) (profiles : List (String × String)) (ts : List Transaction)
    → profile ≢ orphan
    → count (left_over profiles) (resolve_address address profile ts).0
      ≡ count (left_over ((address, profile) ∷ profiles)) ts
unfolding resolve_address get
resolve_address-left address profile profiles [] ne = ground arith
resolve_address-left address profile profiles (t ∷ ts) ne = ground (
  arith,
  eq_iff profile orphan,
  eq_iff t.recipient_address address,
  eq_iff address t.recipient_address,
  resolve_address-left address profile profiles ts ne,
)

resolve_address-core :
    (address profile : String) (ts : List Transaction)
    → map core (resolve_address address profile ts).0 ≡ map core ts
unfolding resolve_address
resolve_address-core address profile [] = refl
resolve_address-core address profile (t ∷ ts) =
    ground (arith, resolve_address-core address profile ts)

resolve_each_left :
    (profiles : List (String × String)) (ts : List Transaction)
    → All (λ p. p.1 ≢ orphan) profiles
    → let r = resolve_each profiles ts in
      (count is_orphan r.0 + r.1 ≡ count is_orphan ts)
      × (count is_orphan r.0 ≡ count (left_over profiles) ts)
      × (map core r.0 ≡ map core ts)
unfolding resolve_each get
resolve_each_left [] ts h = ground arith
resolve_each_left ((address, profile) ∷ profiles) ts h =
    let (c, l, m) = resolve_each_left profiles (resolve_address address profile ts).0 h.1 in
    ground (
      arith,
      c,
      l,
      m,
      resolve_address-count address profile ts h.0,
      resolve_address-left address profile profiles ts h.0,
      resolve_address-core address profile ts,
    )

-- When no profile is itself called "__orphan__", a resolution gives a profile to exactly the
-- orphans whose address has a profile among those found for the first hundred orphans, returns how
-- many it resolved, and leaves each row's hash, amount and recipient and the cursor alone.
resolve_orphans_lem :
    (db : Db)
    → All (λ p. p.1 ≢ orphan) db.profiles
    → let r = resolve_orphans db in
      (count is_orphan r.0.transactions + r.1 ≡ count is_orphan db.transactions)
      × (count is_orphan r.0.transactions ≡ count (left_over (found_profiles db)) db.transactions)
      × (map core r.0.transactions ≡ map core db.transactions)
      × (r.0.cursor ≡ db.cursor)
unfolding resolve_orphans
resolve_orphans_lem db h =
    let (c, l, m) = resolve_each_left (found_profiles db) db.transactions (
      All-filter (λ p. p.1 ≢ orphan)
        (λ p. mem_address p.0 (addresses_of (take 100 (filter is_orphan db.transactions))))
        db.profiles h) in
    (c, l, m, refl)

not_among :
    (address profile : String) (profiles : List (String × String)) (addresses : List String)
    → All (λ a. get a ((address, profile) ∷ profiles) ≡ none) addresses
    → (mem_address address addresses ≡ false) × All (λ a. get a profiles ≡ none) addresses
unfolding get
not_among address profile profiles [] h = (refl, tt)
not_among address profile profiles (a ∷ rest) h =
    let (n, k) = not_among address profile profiles rest h.1 in
    (ground (arith, eq_iff a address, eq_iff address a, h.0, n), (ground (arith, h.0), k))

none_found :
    (profiles : List (String × String)) (addresses : List String)
    → All (λ a. get a profiles ≡ none) addresses
    → filter (λ p. mem_address p.0 addresses) profiles ≡ []
none_found [] addresses h = refl
none_found ((address, profile) ∷ profiles) addresses h =
    let (n, k) = not_among address profile profiles addresses h in
    rw n (none_found profiles addresses k)

-- While the first hundred orphans have no profile, a resolution changes nothing: no orphan behind
-- them is ever resolved, whether it has a profile or not.
resolve_orphans_starves :
    (db : Db)
    → All
        (λ a. get a db.profiles ≡ none)
        (addresses_of (take 100 (filter is_orphan db.transactions)))
    → resolve_orphans db ≡ (db, 0)
unfolding resolve_orphans resolve_each
resolve_orphans_starves db h =
    rw (none_found db.profiles (addresses_of (take 100 (filter is_orphan db.transactions))) h) refl
