-- ===== src/BadgeAwarder/Awards.antt =====
-- Which badges one transaction awards (checkAndAwardBadges), and the key that serialises it.
use mathlib.Core.Option.{some-injective}
use nova_support.Base.{
  ◌+◌, ◌<◌, ◌≤◌, ◌≡◌, ◌⊎◌, ap, refl, Bool, true, false, ◌&&◌, ◌||◌, not, none, some, List, [], ◌∷◌,
  String, arith, any, count, All, length, str_eq, eq_iff, ◌==◌, Option-cases, Bool-cases, inl, inr,
}
use nova_support.BadgeAwarder.{
  Badge, Db, mem, set_size, awarded_badge_ids, Totals, totals, should_award, create_award,
  award_each, check_and_award_badges, check_badges,
}

abbrev pub has_award : String → String → List (String × String) → Bool
has_award profile badge awards = mem badge (awarded_badge_ids profile awards)

-- The badge is in the table under a criterion that the totals meet.
abbrev pub earned : Totals → String → List Badge → Bool
earned t badge [] = false
earned t badge (b ∷ bs) = str_eq b.id badge && should_award t b.criteria || earned t badge bs

create_award-has_award :
    (profile badge other : String) (id : String) (awards : List (String × String))
    → has_award other id (create_award profile badge awards)
      ≡ (has_award other id awards || str_eq profile other && str_eq badge id)
unfolding create_award
create_award-has_award profile badge other id awards =
    elim (Bool-cases (has_award profile badge awards)) [
      | inl e ↦ rw e (ground (arith, e, eq_iff profile other, eq_iff badge id))
      | inr e ↦ rw e (elim (Bool-cases (str_eq profile other)) [
        | inl same ↦ rw same (ground arith)
        | inr apart ↦ rw apart (ground arith)
      ])
    ]

module _ (throws : String → Bool) (profile : String) (t : Totals) (awarded : List String) where
  award_each-has_award :
      (other id : String) (bs : List Badge) (awards awards' : List (String × String))
      → ((b : String) → mem b awarded ≡ true → has_award profile b awards ≡ true)
      → award_each throws profile t awarded bs awards ≡ some awards'
      → has_award other id awards'
        ≡ (has_award other id awards || str_eq profile other && earned t id bs)
  unfolding award_each
  award_each-has_award other id [] awards awards' inv h =
      ground (arith, ap (has_award other id) (some-injective awards awards' h))
  award_each-has_award other id (b ∷ bs) awards awards' inv h =
      elim (Bool-cases (mem b.id awarded)) [
        | inl had ↦ ground (
          arith,
          award_each-has_award other id bs awards awards' inv (rw (had, award_each) at h),
          inv b.id had,
          eq_iff profile other,
          eq_iff b.id id,
        )
        | inr new ↦ elim (Bool-cases (should_award t b.criteria)) [
          | inr not_yet ↦ ground (
            arith,
            award_each-has_award other id bs awards awards' inv
                (rw (new, not_yet, award_each) at h),
            not_yet,
          )
          | inl due ↦ elim (Bool-cases (throws b.id)) [
            | inl thrown ↦ cc (rw (new, due, thrown, award_each) at h)
            | inr fine ↦ ground (
              arith,
              award_each-has_award other id bs (create_award profile b.id awards) awards'
                  (λ c m.
                    ground (arith, inv c m, create_award-has_award profile b.id profile c awards))
                  (rw (new, due, fine, award_each) at h),
              create_award-has_award profile b.id other id awards,
              due,
            )
          ]
        ]
      ]

  award_each-none :
      (bs : List Badge) (awards : List (String × String))
      → award_each throws profile t awarded bs awards ≡ none
      → any (λ b. throws b.id) bs ≡ true
  unfolding award_each
  award_each-none [] awards h = cc h
  award_each-none (b ∷ bs) awards h =
      elim (Bool-cases (mem b.id awarded || not (should_award t b.criteria))) [
        | inl skip ↦ ground (arith, award_each-none bs awards (rw (skip, award_each) at h))
        | inr due ↦ elim (Bool-cases (throws b.id)) [
          | inl thrown ↦ ground (arith, thrown)
          | inr fine ↦ ground (
            arith,
            award_each-none bs (create_award profile b.id awards) (rw (due, fine, award_each) at h),
          )
        ]
      ]

-- A set of awarded badges that is as large as the table of badges, and within it, is all of it.
abbrev pub InTable : List Badge → String → Type 0
InTable bs id = 0 < count (λ b. str_eq id b.id) bs

count-mem_cons :
    (x : String) (awarded : List String) (bs : List Badge)
    → mem x awarded ≡ false
    → count (λ b. mem b.id (x ∷ awarded)) bs
      ≡ count (λ b. str_eq x b.id) bs + count (λ b. mem b.id awarded) bs
count-mem_cons x awarded [] h = refl
count-mem_cons x awarded (b ∷ bs) h =
    ground (arith, count-mem_cons x awarded bs h, eq_iff x b.id, h)

count-mem_known :
    (x : String) (awarded : List String) (bs : List Badge)
    → mem x awarded ≡ true
    → count (λ b. mem b.id (x ∷ awarded)) bs ≡ count (λ b. mem b.id awarded) bs
count-mem_known x awarded [] h = refl
count-mem_known x awarded (b ∷ bs) h =
    ground (arith, count-mem_known x awarded bs h, eq_iff x b.id, h)

set_size-le :
    (awarded : List String) (bs : List Badge)
    → All (InTable bs) awarded
    → set_size awarded ≤ count (λ b. mem b.id awarded) bs
set_size-le [] bs h = omega arith
set_size-le (x ∷ awarded) bs h = elim (Bool-cases (mem x awarded)) [
  | inl old ↦ ground (arith, count-mem_known x awarded bs old, set_size-le awarded bs h.1)
  | inr new ↦ ground (arith, count-mem_cons x awarded bs new, set_size-le awarded bs h.1, h.0)
]

count-le-length : (p : Badge → Bool) (bs : List Badge) → count p bs ≤ length bs
count-le-length p [] = omega arith
count-le-length p (b ∷ bs) = ground (arith, count-le-length p bs)

earned-mem :
    (t : Totals) (id : String) (awarded : List String) (bs : List Badge)
    → length bs ≤ count (λ b. mem b.id awarded) bs
    → earned t id bs ≡ true
    → mem id awarded ≡ true
earned-mem t id awarded [] le h = cc h
earned-mem t id awarded (b ∷ bs) le h = elim (Bool-cases (str_eq b.id id)) [
  | inl same ↦ ground (arith, eq_iff b.id id, count-le-length (λ b. mem b.id awarded) bs, le)
  | inr apart ↦ earned-mem t id awarded bs (ground (arith, le)) (ground (arith, h, apart))
]

-- After a check exactly the badges that the totals earn the profile have been added to its awards.
abbrev pub Exact : String → Db → List (String × String) → Type 0
Exact profile db after =
    (other id : String)
    → has_award other id after ≡ (
        has_award other id db.awards
        || str_eq profile other && earned (totals profile db) id db.badges)

module _ (throws : String → Bool) (profile : String) (db : Db) where
  guarded :
      All (InTable db.badges) (awarded_badge_ids profile db.awards)
      → (length db.badges == 0
          || set_size (awarded_badge_ids profile db.awards) == length db.badges)
        ≡ true
      → Exact profile db db.awards
  guarded h g other id = ground (
    arith,
    set_size-le (awarded_badge_ids profile db.awards) db.badges h,
    earned-mem (totals profile db) id (awarded_badge_ids profile db.awards) db.badges,
    eq_iff profile other,
  )

  check_badges-Exact :
      All (InTable db.badges) (awarded_badge_ids profile db.awards)
      → let after = check_badges throws profile db in
        Exact profile db after ⊎ ((after ≡ db.awards) × (any (λ b. throws b.id) db.badges ≡ true))
  unfolding check_badges
  check_badges-Exact h =
      let awarded = awarded_badge_ids profile db.awards in
      let run = award_each throws profile (totals profile db) awarded db.badges db.awards in
      elim (Bool-cases (length db.badges == 0 || set_size awarded == length db.badges)) [
        | inl stop ↦ rw (stop, check_badges) (inl (guarded h stop))
        | inr go ↦ elim (Option-cases run) [
          | inl threw ↦
              rw (go, threw, check_badges)
                (inr (
                  refl,
                  award_each-none throws profile (totals profile db) awarded db.badges db.awards
                      threw,
                ))
          | inr (awards', e) ↦
              rw (go, e, check_badges)
                (inl (λ other id.
                  award_each-has_award throws profile (totals profile db) awarded other id db.badges
                    db.awards awards' (λ b m. m) e))
        ]
      ]

  -- When every badge that the profile was awarded is in the table, a check leaves either exactly
  -- the old awards of all profiles and those badges of the profile whose criterion in the table its
  -- totals meet, or the awards as they were, where the lock, a read or the commit fails or an insert of
  -- some badge of the table throws.
  pub check_and_award_badges-Exact :
      (completes : Bool)
      → All (InTable db.badges) (awarded_badge_ids profile db.awards)
      → let after = check_and_award_badges completes throws profile db in
        Exact profile db after
        ⊎ ((after ≡ db.awards) × ((not completes || any (λ b. throws b.id) db.badges) ≡ true))
  unfolding check_and_award_badges
  check_and_award_badges-Exact true h = check_badges-Exact h
  check_and_award_badges-Exact false h = inr (refl, refl)
