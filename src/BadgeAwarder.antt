-- ===== src/BadgeAwarder.antt =====
-- backend/src/services/badge-awarder.ts: the badges of one profile, awarded in one database
-- transaction, and the sweep over the profiles. Whether an insert throws, and whether another call of
-- the transaction fails, are arguments.
mod Awards
mod Sweep
mod Tests
use nova_support.Base.{
  ℕ, zero, suc, ◌+◌, ◌*◌, ◌%◌, ◌^◌, Bool, true, false, ◌&&◌, ◌||◌, not, Option, none, some, List,
  [], ◌∷◌, ◌++◌, String, map, filter, any, count, take, length, str_eq, leb, ◌==◌, if◌then◌else◌,
  is_some,
}

-- The key of the advisory lock, from the UTF-16 units of the id: `& 0x7FFFFFFFFFFFFFFF` keeps the
-- low 63 bits.
lock_key_from : ℕ → List ℕ → ℕ
lock_key_from h [] = h
lock_key_from h (unit ∷ units) = lock_key_from ((h * 31 + unit) % 2 ^ 63) units

pub profile_lock_key : List ℕ → ℕ
unfolding lock_key_from
profile_lock_key units = lock_key_from 0 units

pub record Badge : Type 0 where
  pub id : String
  pub criteria : String

-- Amounts in units of 10⁻⁷, the scale of the column.
pub record Support : Type 0 where
  pub profile_id : String
  pub status : String
  pub supporter_address : Option String
  pub asset_code : String
  pub asset_issuer : Option String
  pub amount : ℕ

-- Awards are pairs of a profile's and a badge's id, as milestones are of a profile's and a status.
pub record Db : Type 0 where
  pub badges : List Badge
  pub awards : List (String × String)
  pub supports : List Support
  pub milestones : List (String × String)

abbrev pub mem : String → List String → Bool
mem x = any λ y. str_eq y x

-- The size of `new Set(xs)`.
abbrev pub set_size : List String → ℕ
set_size [] = 0
set_size (x ∷ xs) = (if mem x xs then 0 else 1) + set_size xs

abbrev pub awarded_badge_ids : String → List (String × String) → List String
awarded_badge_ids profile awards = map (λ a. a.1) (filter (λ a. str_eq a.0 profile) awards)

abbrev pub is_success_of : String → Support → Bool
is_success_of profile s = str_eq s.profile_id profile && str_eq s.status "SUCCESS"

abbrev known : List Support → List String
known [] = []
known (s ∷ ss) = known_of s.supporter_address (known ss)
  where
    known_of : Option String → List String → List String
    known_of none xs = xs
    known_of (some x) xs = x ∷ xs

abbrev sum_xlm : List Support → ℕ
sum_xlm [] = 0
sum_xlm (s ∷ ss) =
    (if str_eq s.asset_code "XLM" && not (is_some s.asset_issuer) then s.amount else 0) + sum_xlm ss

pub record Totals : Type 0 where
  pub tx_count : ℕ
  pub unique_supporters : ℕ
  pub xlm_total : ℕ
  pub milestones_reached : ℕ

abbrev pub totals : String → Db → Totals
totals profile db =
    let mine = filter (is_success_of profile) db.supports in
    record {
      tx_count = length mine;
      unique_supporters = set_size (known mine);
      xlm_total = sum_xlm mine;
      milestones_reached = count (λ m. str_eq m.0 profile && str_eq m.1 "reached") db.milestones;
    }

pub should_award : Totals → String → Bool
should_award t criteria =
    if str_eq criteria "first_support"
    then leb 1 t.tx_count
    else if str_eq criteria "ten_supporters"
    then leb 10 t.unique_supporters
    else if str_eq criteria "total_100_xlm"
    then leb (100 * 10 ^ 7) t.xlm_total
    else if str_eq criteria "milestone_reached"
    then leb 1 t.milestones_reached
    else false

-- `profileBadge.create`, where the unique key's violation (P2002) is swallowed.
create_award : String → String → List (String × String) → List (String × String)
create_award profile badge awards =
    if mem badge (awarded_badge_ids profile awards) then awards else (profile, badge) ∷ awards

-- The loop over the badges; `throws` says for which badge the insert throws another error.
pub award_each :
    (String → Bool)
    → String
    → Totals
    → List String
    → List Badge
    → List (String × String)
    → Option (List (String × String))
unfolding create_award
award_each throws profile t awarded [] awards = some awards
award_each throws profile t awarded (b ∷ bs) awards =
    let skipped = award_each throws profile t awarded bs awards in
    let created = award_each throws profile t awarded bs (create_award profile b.id awards) in
    if mem b.id awarded || not (should_award t b.criteria)
    then skipped
    else if throws b.id
    then none
    else created

-- The awards after the transaction; when it throws, those before.
abbrev committed : List (String × String) → Option (List (String × String)) → List (String × String)
committed awards none = awards
committed awards (some awards') = awards'

-- The transaction, when the lock, the reads and the commit are fulfilled in time.
pub check_badges : (String → Bool) → String → Db → List (String × String)
unfolding award_each
check_badges throws profile db =
    let awarded = awarded_badge_ids profile db.awards in
    if length db.badges == 0 || set_size awarded == length db.badges
    then db.awards
    else committed db.awards
        (award_each throws profile (totals profile db) awarded db.badges db.awards)

-- `completes` is whether the lock, the reads and the commit are fulfilled within the timeout; whatever
-- fails rolls the transaction back and is logged.
pub check_and_award_badges : Bool → (String → Bool) → String → Db → List (String × String)
unfolding check_badges
check_and_award_badges completes throws profile db =
    if completes then check_badges throws profile db else db.awards

abbrev pub badge_sweep_batch_size : ℕ
badge_sweep_batch_size = 100

-- The ids behind the cursor's, from where the query goes on (`skip: 1`).
abbrev pub behind : String → List String → List String
behind c [] = []
behind c (p ∷ ps) = if str_eq p c then ps else behind c ps

abbrev pub page_after : Option String → List String → List String
page_after none ps = take badge_sweep_batch_size ps
page_after (some c) ps =
    if str_eq c ""
    then take badge_sweep_batch_size ps
    else take badge_sweep_batch_size (behind c ps)

abbrev pub last_of : String → List String → String
last_of p [] = p
last_of p (q ∷ ps) = last_of q ps

-- `sweepBadges` over the ids, in order, of the profiles with a successful support: the profiles that
-- are checked, one after the other. The fuel bounds the pages that are read.
pub sweep_pages : ℕ → Option String → List String → Option (List String)
sweep_pages zero cursor ps = none
sweep_pages (suc fuel) cursor ps = elim (page_after cursor ps) [
  | [] ↦ some []
  | p ∷ page ↦
      let rest = sweep_pages fuel (some (last_of p page)) ps in
      if length (p ∷ page) == badge_sweep_batch_size
      then append_to (p ∷ page) rest
      else some (p ∷ page)
]
  where
    append_to : List String → Option (List String) → Option (List String)
    append_to page none = none
    append_to page (some rest) = some (page ++ rest)

pub sweep_badges : ℕ → List String → Option (List String)
unfolding sweep_pages
sweep_badges fuel ps = sweep_pages fuel none ps
