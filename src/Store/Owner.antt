-- ===== src/Store/Owner.antt =====
-- Who may change a profile's rows (isProfileOwner and resolveProfileOwner of backend/src/app.ts).
use nova_support.Base.{
  ◌⊎◌, ◌≡◌, refl, ap, inl, inr, false, true, All, eq_iff, Bool-cases, Option-cases, Bool, true,
  false, ◌||◌, Option, none, some, String, str_eq, if◌then◌else◌,
}
use nova_support.Store.Rows.{find_unique-All}
use mathlib.Core.Path.{subst}
use nova_support.Store.{Db, Profile, Reply, error, find_unique}

-- What `requireAuth` leaves in `req.auth`.
pub record AuthContext : Type 0 where
  pub user_id : String
  pub wallet_address : String

unfoldable pub is_profile_owner : Option AuthContext → Profile → Bool
is_profile_owner none p = false
is_profile_owner (some a) p =
    str_eq a.wallet_address p.wallet_address || str_eq a.user_id p.owner_id

-- The profile of the path, when the caller owns it; else the answer.
pub data Owned : Type 0 where
  owned : Profile → Owned
  refused : Reply → Owned

unfoldable pub resolve_owner : Option AuthContext → String → Db → Owned
unfolding is_profile_owner find_unique
resolve_owner auth username db =
    elim (find_unique (λ (p : Profile). p.username) username db.profiles) [
      | none ↦ refused (error 404 "")
      | some p ↦ if is_profile_owner auth p then owned p else refused (error 403 "")
    ]

pub Owned-cases : (o : Owned) → ((p : Profile) × (o ≡ owned p)) ⊎ ((r : Reply) × (o ≡ refused r))
Owned-cases (owned p) = inl (p, refl)
Owned-cases (refused r) = inr (r, refl)

-- No profile with this id is the caller's.
abbrev pub Foreign : Option AuthContext → String → Db → Type 0
Foreign auth q db = All (λ p. p.id ≡ q → is_profile_owner auth p ≡ false) db.profiles

owned-injective : (p q : Profile) → owned p ≡ owned q → p ≡ q
owned-injective p q h = ap from h
  where
    from : Owned → Profile
    from (owned r) = r
    from (refused r) = p

pub resolve_owner-owner :
    (auth : Option AuthContext) (username : String) (db : Db) (p : Profile)
    → resolve_owner auth username db ≡ owned p
    → (find_unique (λ (r : Profile). r.username) username db.profiles ≡ some p)
      × (is_profile_owner auth p ≡ true)
unfolding resolve_owner
resolve_owner-owner auth username db p h =
    elim (Option-cases (find_unique (λ (r : Profile). r.username) username db.profiles)) [
      | inl e ↦ cc (rw (e, resolve_owner) at h)
      | inr (r, e) ↦ elim (Bool-cases (is_profile_owner auth r)) [
        | inr f ↦ cc (rw (e, f, resolve_owner) at h)
        | inl f ↦
            let same = owned-injective r p (rw (e, f, resolve_owner) at h) in
            subst
              (λ z.
                (find_unique (λ (r : Profile). r.username) username db.profiles ≡ some z)
                × (is_profile_owner auth z ≡ true))
              same (e, f)
      ]
    ]

pub resolve_owner-other :
    (auth : Option AuthContext) (username q : String) (db : Db) (p : Profile)
    → resolve_owner auth username db ≡ owned p
    → Foreign auth q db
    → str_eq p.id q ≡ false
resolve_owner-other auth username q db p h foreign =
    let (found, owner) = resolve_owner-owner auth username db p h in
    let free =
      find_unique-All (λ (r : Profile). r.username) username
        (λ r. r.id ≡ q → is_profile_owner auth r ≡ false) p db.profiles foreign found in
    elim (Bool-cases (str_eq p.id q)) [
      | inr e ↦ e
      | inl e ↦ absurd (clash (free ((eq_iff p.id q).0 e)) owner)
    ]
  where
    clash : is_profile_owner auth p ≡ false → is_profile_owner auth p ≡ true → ⊥
    clash f t = cc
