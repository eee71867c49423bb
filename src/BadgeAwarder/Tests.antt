-- ===== src/BadgeAwarder/Tests.antt =====
-- The claims at concrete inputs.
use nova_support.Base.{
  ◌≡◌, refl, ◌⊎◌, true, false, none, some, List, [], ◌∷◌, String, arith, eq_iff, any, Bool, ◌&&◌,
  ◌||◌, not, str_eq, ◌≢◌, All,
}
use nova_support.BadgeAwarder.{
  Support, Db, check_and_award_badges, check_badges, sweep_badges, should_award, award_each,
}
use nova_support.BadgeAwarder.Awards.{Exact, check_and_award_badges-Exact}
use nova_support.BadgeAwarder.Sweep.{Ids, sweep_badges_visits}

abbrev gift : Support
gift = record {
  profile_id = "p";
  status = "SUCCESS";
  supporter_address = some "s";
  asset_code = "XLM";
  asset_issuer = none;
  amount = 1000000000;
}

abbrev db : Db
db = record {
  badges =
      record { id = "b1"; criteria = "first_support" }
      ∷ record { id = "b2"; criteria = "total_100_xlm" }
      ∷ record { id = "b3"; criteria = "ten_supporters" }
      ∷ [];
  awards = ("p", "b1") ∷ ("q", "b3") ∷ [];
  supports = gift ∷ [];
  milestones = [];
}

-- The profile has the first badge, earns the second, and not the third.
second_awarded :
    check_and_award_badges true (λ b. false) "p" db ≡ ("p", "b2") ∷ ("p", "b1") ∷ ("q", "b3") ∷ []
unfolding check_and_award_badges check_badges award_each should_award
second_awarded = refl

check_and_award_badges-Exact_example :
    Exact "p" db (check_and_award_badges true (λ b. false) "p" db)
    ⊎ ((check_and_award_badges true (λ b. false) "p" db ≡ db.awards)
        × ((not true || any (λ b. false) db.badges) ≡ true))
check_and_award_badges-Exact_example =
    check_and_award_badges-Exact (λ b. false) "p" db true (omega arith, tt)

-- A test of `Ids`.
is_apart : String → List String → Bool
is_apart p [] = true
is_apart p (q ∷ ps) = not (str_eq p q) && is_apart p ps

are_ids : List String → Bool
unfolding is_apart
are_ids [] = true
are_ids (p ∷ ps) = not (str_eq p "") && is_apart p ps && are_ids ps

is_apart_sound : (p : String) (ps : List String) → is_apart p ps ≡ true → All (λ q. p ≢ q) ps
unfolding is_apart
is_apart_sound p [] h = tt
is_apart_sound p (q ∷ ps) h =
    (ground (arith, h, eq_iff p q), is_apart_sound p ps (ground (arith, h)))

are_ids_sound : (ps : List String) → are_ids ps ≡ true → Ids ps
unfolding are_ids
are_ids_sound [] h = tt
are_ids_sound (p ∷ ps) h = (
  ground (arith, h, eq_iff p ""),
  is_apart_sound p ps (ground (arith, h)),
  are_ids_sound ps (ground (arith, h)),
)

-- A full page and one profile more.
abbrev profiles : List String
profiles =
    "p1" ∷ "p2" ∷ "p3" ∷ "p4" ∷ "p5" ∷ "p6" ∷ "p7" ∷ "p8" ∷ "p9" ∷ "p10" ∷ "p11" ∷ "p12" ∷ "p13"
    ∷ "p14" ∷ "p15" ∷ "p16" ∷ "p17" ∷ "p18" ∷ "p19" ∷ "p20" ∷ "p21" ∷ "p22" ∷ "p23" ∷ "p24" ∷ "p25"
    ∷ "p26" ∷ "p27" ∷ "p28" ∷ "p29" ∷ "p30" ∷ "p31" ∷ "p32" ∷ "p33" ∷ "p34" ∷ "p35" ∷ "p36" ∷ "p37"
    ∷ "p38" ∷ "p39" ∷ "p40" ∷ "p41" ∷ "p42" ∷ "p43" ∷ "p44" ∷ "p45" ∷ "p46" ∷ "p47" ∷ "p48" ∷ "p49"
    ∷ "p50" ∷ "p51" ∷ "p52" ∷ "p53" ∷ "p54" ∷ "p55" ∷ "p56" ∷ "p57" ∷ "p58" ∷ "p59" ∷ "p60" ∷ "p61"
    ∷ "p62" ∷ "p63" ∷ "p64" ∷ "p65" ∷ "p66" ∷ "p67" ∷ "p68" ∷ "p69" ∷ "p70" ∷ "p71" ∷ "p72" ∷ "p73"
    ∷ "p74" ∷ "p75" ∷ "p76" ∷ "p77" ∷ "p78" ∷ "p79" ∷ "p80" ∷ "p81" ∷ "p82" ∷ "p83" ∷ "p84" ∷ "p85"
    ∷ "p86" ∷ "p87" ∷ "p88" ∷ "p89" ∷ "p90" ∷ "p91" ∷ "p92" ∷ "p93" ∷ "p94" ∷ "p95" ∷ "p96" ∷ "p97"
    ∷ "p98" ∷ "p99" ∷ "p100" ∷ "p101" ∷ []

profiles-Ids : Ids profiles
unfolding are_ids is_apart
profiles-Ids = are_ids_sound profiles refl

sweep_badges_visits_example : sweep_badges 2 profiles ≡ some profiles
sweep_badges_visits_example = sweep_badges_visits profiles 2 profiles-Ids (omega arith)
