-- ===== src/Subscriptions/Duplicates.antt =====
-- How many live subscriptions a supporter has to a profile in one asset, and to a profile at all.
use mathlib.Core.Path.{subst}
use nova_support.Base.{
  ◌||◌, ℕ, ◌+◌, ◌≤◌, ◌≡◌, refl, sym, ap, inl, inr, Bool, true, false, ◌&&◌, not, Option, none, some,
  List, [], ◌∷◌, ◌++◌, String, arith, eq_iff, str_eq, any, count, count-append, Bool-cases,
  if◌then◌else◌,
}
use nova_support.Store.{
  Db, RecurringSupport, SubscriptionStatus, active, paused, cancelled, Outcome, find_unique,
  update_where, same_issuer,
}
use nova_support.Store.Owner.{AuthContext}
use nova_support.Store.Rows.{count-update_where}
use nova_support.Subscriptions.{
  or_keep, RecurringBody, NewSupport, SupportPatch, is_live_of, is_user, is_cancelled, new_support,
  post_recurring, reactivates, patched, written, patch_recurring, cancel, delete_recurring,
}
use nova_support.Subscriptions.Effects.{
  post_recurring_changes, patch_recurring_changes, delete_recurring_changes,
}

abbrev pub live_of : String → String → String → Option String → Db → ℕ
live_of user profile code issuer db = count (is_live_of user profile code issuer) db.subscriptions

-- A supporter has at most one live subscription to a profile in an asset.
abbrev pub HasNoDuplicates : Db → Type 0
HasNoDuplicates db =
    (user profile code : String) (issuer : Option String) → live_of user profile code issuer db ≤ 1

any-count_zero {ℓ} : {A : Type ℓ} (p : A → Bool) (xs : List A) → any p xs ≡ false → count p xs ≡ 0
any-count_zero p [] h = refl
any-count_zero p (x ∷ xs) h = ground (arith, any-count_zero p xs)

-- A change that makes no row count that did not count before.
update_le :
    (p : RecurringSupport → Bool) (f : RecurringSupport → RecurringSupport) (r : RecurringSupport)
    (rows : List RecurringSupport)
    → find_unique (λ (q : RecurringSupport). q.id) r.id rows ≡ some r
    → (p r || not (p (f r))) ≡ true
    → count p (update_where (λ (q : RecurringSupport). q.id) r.id f rows) ≤ count p rows
update_le p f r rows at keeps =
    bound (p r) (p (f r)) keeps
      (count p (update_where (λ (q : RecurringSupport). q.id) r.id f rows)) (count p rows)
      (count-update_where (λ (q : RecurringSupport). q.id) r.id p f r rows at)
  where
    bound :
        (a b : Bool)
        → (a || not b) ≡ true
        → (k l : ℕ) → (if a then 1 else 0) + k ≡ (if b then 1 else 0) + l
        → k ≤ l
    bound a b h k l e = ground arith

same_issuer_eq : (s t : Option String) → same_issuer s t ≡ true → s ≡ t
same_issuer_eq none none h = refl
same_issuer_eq none (some t) h = cc
same_issuer_eq (some s) none h = cc
same_issuer_eq (some s) (some t) h = ap some ((eq_iff s t).0 h)

status_kept :
    (o : Option SubscriptionStatus) (old : SubscriptionStatus)
    → reactivates o old ≡ false
    → (not (is_cancelled old) || is_cancelled (or_keep o old)) ≡ true
status_kept none active h = refl
status_kept none paused h = refl
status_kept none cancelled h = refl
status_kept (some s) active h = refl
status_kept (some s) paused h = refl
status_kept (some cancelled) cancelled h = refl
status_kept (some active) cancelled h = cc
status_kept (some paused) cancelled h = cc

and_true : (a b : Bool) → (a && b) ≡ true → (a ≡ true) × (b ≡ true)
and_true true b h = (refl, h)
and_true false b h = cc

module _ (month : ℕ → ℕ) where
  cancel_counts_no_more :
      (now : ℕ) (user profile code : String) (issuer : Option String) (r : RecurringSupport)
      → (is_live_of user profile code issuer r
          || not (is_live_of user profile code issuer (cancel month now r)))
        ≡ true
  unfolding cancel
  cancel_counts_no_more now user profile code issuer r = ground arith

  patch_counts_no_more :
      (now : ℕ) (amount : Option ℕ) (b : SupportPatch) (user profile code : String)
      (issuer : Option String) (r : RecurringSupport)
      → b.asset_issuer ≡ none
      → reactivates b.status r.status ≡ false
      → (is_live_of user profile code issuer r
          || not (is_live_of user profile code issuer (patched month now amount b r)))
        ≡ true
  unfolding patched written
  patch_counts_no_more now amount b user profile code issuer r e h = rw e (
      kept (is_user user r.supporter_id) (str_eq r.profile_id profile) (is_cancelled r.status)
        (is_cancelled (or_keep b.status r.status)) (str_eq r.asset_code code)
        (same_issuer r.asset_issuer issuer) (status_kept b.status r.status h))
    where
      kept :
          (u p old new c i : Bool)
          → (not old || new) ≡ true
          → ((u && p && not old) && c && i || not ((u && p && not new) && c && i)) ≡ true
      kept u p old new c i k = ground arith

  new_support_live :
      (id : String) (now : ℕ) (user profile code : String) (issuer : Option String) (u : String)
      (n : NewSupport)
      → is_live_of user profile code issuer (new_support month id u now n) ≡ true
      → (u ≡ user) × (n.profile_id ≡ profile) × (n.asset_code ≡ code) × (n.asset_issuer ≡ issuer)
  unfolding new_support
  new_support_live id now user profile code issuer u n h = ground (
    arith,
    eq_iff u user,
    eq_iff n.profile_id profile,
    eq_iff n.asset_code code,
    same_issuer_eq n.asset_issuer issuer,
  )

  added_at_most_one :
      (id : String) (now : ℕ) (user profile code : String) (issuer : Option String) (u : String)
      (n : NewSupport) (rows : List RecurringSupport)
      → any (is_live_of u n.profile_id n.asset_code n.asset_issuer) rows ≡ false
      → count (is_live_of user profile code issuer) rows ≤ 1
      → count (is_live_of user profile code issuer) (rows ++ (new_support month id u now n ∷ []))
        ≤ 1
  added_at_most_one id now user profile code issuer u n rows free le =
      let row = new_support month id u now n in
      let p = is_live_of user profile code issuer in
      rw (count-append p rows (row ∷ [])) (elim (Bool-cases (p row)) [
        | inr e ↦ plus_none (p row) (count p rows) e le
        | inl e ↦
            let (a, b, c, d) = new_support_live id now user profile code issuer u n e in
            plus_one (p row) (count p rows) (
              any-count_zero p rows (
                subst (λ z. any (is_live_of z profile code issuer) rows ≡ false) a
                  (subst (λ z. any (is_live_of u z code issuer) rows ≡ false) b
                    (subst (λ z. any (is_live_of u n.profile_id z issuer) rows ≡ false) c
                      (subst (λ z. any (is_live_of u n.profile_id n.asset_code z) rows ≡ false) d
                        free)))))
      ])
    where
      plus_one : (b : Bool) (k : ℕ) → k ≡ 0 → k + ((if b then 1 else 0) + 0) ≤ 1
      plus_one b k h = ground arith

      plus_none : (b : Bool) (k : ℕ) → b ≡ false → k ≤ 1 → k + ((if b then 1 else 0) + 0) ≤ 1
      plus_none b k h l = ground arith

  -- A request of recurring support that runs alone makes no second live subscription of a supporter to
  -- a profile in an asset, whoever calls it and whatever the database answers; of a PATCH it is asked
  -- that it gives no issuer.
  pub recurring-HasNoDuplicates :
      (is_key : String → Bool) (users : List (String × String)) (auth : AuthContext) (id : String)
      (now : ℕ) (outcome : Outcome) (b : RecurringBody) (c : SupportPatch) (db : Db)
      → c.asset_issuer ≡ none
      → HasNoDuplicates db
      → HasNoDuplicates (post_recurring month is_key users auth id now outcome b db).1
        × HasNoDuplicates (patch_recurring month is_key users auth id now outcome c db).1
        × HasNoDuplicates (delete_recurring month users auth id now outcome db).1
  recurring-HasNoDuplicates is_key users auth id now outcome b c db keeps unique = (
    elim (post_recurring_changes month is_key users auth id now outcome b db) [
      | inl same ↦ subst HasNoDuplicates (sym same) unique
      | inr (n, u, (free, below, new)) ↦
          subst HasNoDuplicates (sym new) (λ user profile code issuer.
            added_at_most_one id now user profile code issuer u n db.subscriptions free
              (unique user profile code issuer))
    ],
    elim (patch_recurring_changes month is_key users auth id now outcome c db) [
      | inl same ↦ subst HasNoDuplicates (sym same) unique
      | inr (u, r, amount, ((mine, at), stays, new)) ↦
          subst HasNoDuplicates (sym new) (λ user profile code issuer. omega (
            arith,
            unique user profile code issuer,
            update_le (is_live_of user profile code issuer) (patched month now amount c) r
                db.subscriptions at
                (patch_counts_no_more now amount c user profile code issuer r keeps stays),
          ))
    ],
    elim (delete_recurring_changes month users auth id now outcome db) [
      | inl same ↦ subst HasNoDuplicates (sym same) unique
      | inr (u, r, (mine, at), new) ↦ subst HasNoDuplicates (sym new) (λ user profile code issuer.
          omega (
            arith,
            unique user profile code issuer,
            update_le (is_live_of user profile code issuer) (cancel month now) r db.subscriptions at
                (cancel_counts_no_more now user profile code issuer r),
          ))
    ],
  )
