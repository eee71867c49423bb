-- ===== src/Milestones/Reached.antt =====
-- The status of a milestone against its amounts, under the milestone routes and the payments of
-- POST /v1/support-transactions.
use mathlib.Core.Option.{some-injective}
use mathlib.Core.Path.{subst}
use nova_support.Base.{
  lt→ltb, leb→le, ap, ℕ, ◌<◌, ◌≤◌, ◌≡◌, refl, sym, inl, inr, Bool, true, false, ◌||◌, Option, none,
  some, List, [], ◌∷◌, String, arith, leb, ltb, All, All-append, map, Bool-cases, Option-cases,
  if◌then◌else◌,
}
use nova_support.Store.{Db, Milestone, SupportTransaction, parse_amount, parse_amount-positive}
use nova_support.Store.Rows.{find_unique-All, update_where-All, delete_where-All}
use nova_support.Milestones.{
  MilestoneBody, NewMilestone, MilestonePatch, Changes, create_milestone_schema, patch_schema,
  parse_optional, new_row, is_reached, patched, written, titled, write_fields,
}
use nova_support.SupportTransactions
use nova_support.Milestones.Calls.{Call, create, change, remove, support, call, calls}
use nova_support.Milestones.Effects.{
  post_milestone_changes, patch_milestone_changes, delete_milestone_changes,
}
use nova_support.SupportTransactions.{
  Body, Verification, post_support, credit, increment, record_support, is_funded_by,
}
use nova_support.SupportTransactions.Recorded.{Answered, post_support-Answered}

-- The target is positive, and while the milestone is not marked reached its amount is below it.
abbrev pub IsSettled : Milestone → Type 0
IsSettled m =
    (0 < m.target_amount) × ((is_reached m.status || ltb m.current_amount m.target_amount) ≡ true)

guarded {ℓ} : {A : Type ℓ} (b : Bool) (x y : A) → (if b then some x else none) ≡ some y → x ≡ y
guarded true x y h = some-injective x y h
guarded false x y h = cc

create_milestone_schema-positive :
    (is_key : String → Bool) (b : MilestoneBody) (n : NewMilestone)
    → create_milestone_schema is_key b ≡ some n
    → 0 < n.target_amount
unfolding create_milestone_schema
create_milestone_schema-positive is_key b n h = elim (Option-cases (parse_amount b.target_amount)) [
  | inl e ↦ cc (rw (e, create_milestone_schema) at h)
  | inr (target, e) ↦
      let same = guarded _ _ n (rw (e, create_milestone_schema) at h) in
      subst (λ k. 0 < k) (ap (λ (x : NewMilestone). x.target_amount) same)
        (parse_amount-positive b.target_amount target e)
]

abbrev Positive : Option ℕ → Type 0
Positive none = Unit
Positive (some n) = 0 < n

parse_optional-Positive :
    (o : Option String) (target : Option ℕ) → parse_optional o ≡ some target → Positive target
parse_optional-Positive none target h = subst Positive (some-injective none target h) tt
parse_optional-Positive (some s) target h = elim (Option-cases (parse_amount s)) [
  | inl e ↦ cc (rw (e, parse_optional) at h)
  | inr (n, e) ↦
      subst Positive (some-injective (some n) target (rw (e, parse_optional) at h))
        (parse_amount-positive s n e)
]

patch_schema-Positive :
    (is_key : String → Bool) (b : MilestonePatch) (c : Changes)
    → patch_schema is_key b ≡ some c
    → Positive c.target_amount
unfolding patch_schema
patch_schema-Positive is_key b c h = elim (Option-cases (parse_optional b.target_amount)) [
  | inl e ↦ cc (rw (e, patch_schema) at h)
  | inr (target, e) ↦
      let same = guarded _ _ c (rw (e, patch_schema) at h) in
      subst Positive (ap (λ (x : Changes). x.target_amount) same)
        (parse_optional-Positive b.target_amount target e)
]

-- `Number(a) >= Number(b)` holds at least when a ≥ b: conversion to a double keeps the order.
abbrev pub KeepsOrder : (ℕ → ℕ → Bool) → Type 0
KeepsOrder number_ge = (a b : ℕ) → b ≤ a → number_ge a b ≡ true

not_ge : (number_ge : ℕ → ℕ → Bool) (a b : ℕ) → KeepsOrder number_ge → number_ge a b ≡ false → a < b
not_ge number_ge a b keeps h = elim (Bool-cases (leb b a)) [
  | inl e ↦ cc (keeps a b (leb→le b a e))
  | inr e ↦ ground arith
]

patched-IsSettled :
    (number_ge : ℕ → ℕ → Bool) (now : ℕ) (c : Changes) (m : Milestone)
    → KeepsOrder number_ge
    → Positive c.target_amount
    → IsSettled m
    → IsSettled (patched number_ge now c m)
unfolding patched written titled write_fields
patched-IsSettled number_ge now c m keeps new settled = go c.target_amount refl new
  where
    go : (t : Option ℕ) → c.target_amount ≡ t → Positive t → IsSettled (patched number_ge now c m)
    go none e p = ground (arith, e, settled.0, settled.1)
    go (some n) e p = elim (Bool-cases (number_ge m.current_amount n)) [
      | inl g ↦ ground (arith, e, g, p, settled.0)
      | inr g ↦
          let under = not_ge number_ge m.current_amount n keeps g in
          ground (arith, e, g, p, under, settled.0)
    ]

credit-IsSettled :
    (now : ℕ) (t : SupportTransaction) (m : Milestone) → IsSettled m → IsSettled (credit now t m)
unfolding credit increment is_funded_by
credit-IsSettled now t m settled = ground (arith, settled.0, settled.1)

abbrev pub AllSettled : Db → Type 0
AllSettled db = All IsSettled db.milestones

All-map {ℓ κ} :
    {A : Type ℓ} {P : A → Type κ} (f : A → A)
    → ((a : A) → P a → P (f a))
    → (xs : List A) → All P xs
    → All P (map f xs)
All-map f h [] all = tt
All-map f h (x ∷ xs) all = (h x all.0, All-map f h xs all.1)

support-AllSettled :
    (is_key : String → Bool) (skip : Bool) (v : Verification) (now : ℕ) (b : Body) (db db' : Db)
    (reply : SupportTransactions.Reply)
    → Answered is_key skip v now b db reply db'
    → AllSettled db
    → AllSettled db'
unfolding record_support
support-AllSettled is_key skip v now b db db' (SupportTransactions.error status code) same all =
    subst AllSettled (sym same) all
support-AllSettled is_key skip v now b db db' (SupportTransactions.duplicate_tx hash) h all =
    subst AllSettled (sym h.3) all
support-AllSettled is_key skip v now b db db' (SupportTransactions.created t) h all =
    subst AllSettled (sym h.5) (All-map (credit now t) (credit-IsSettled now t) db.milestones all)

new_row-IsSettled :
    (id profile_id : String) (n : NewMilestone)
    → 0 < n.target_amount
    → IsSettled (new_row id profile_id n)
unfolding new_row
new_row-IsSettled id profile_id n h = (h, lt→ltb 0 n.target_amount h)

module _ (is_key : String → Bool) (number_ge : ℕ → ℕ → Bool) (skip : Bool)
    (keeps : KeepsOrder number_ge) where
  call-AllSettled :
      (c : Call) (db : Db) → AllSettled db → AllSettled (call is_key number_ge skip c db)
  unfolding call
  call-AllSettled (create auth username id outcome b) db all =
      elim (post_milestone_changes is_key auth username id outcome db b) [
        | inl same ↦ subst AllSettled (sym same) all
        | inr (p, n, owner, valid, (allowed, cap, new)) ↦ subst AllSettled (sym new) (
            All-append IsSettled db.milestones (new_row id p.id n ∷ []) all
              (new_row-IsSettled id p.id n (create_milestone_schema-positive is_key b n valid), tt))
      ]
  call-AllSettled (change auth username id now outcome b) db all =
      elim (patch_milestone_changes number_ge is_key auth username id now db outcome b) [
        | inl same ↦ subst AllSettled (sym same) all
        | inr (p, m, c, (owner, at, of, valid, checked, new)) ↦ subst AllSettled (sym new) (
            update_where-All (λ (n : Milestone). n.id) m.id IsSettled
              (λ n. patched number_ge now c n) m db.milestones at
              (patched-IsSettled number_ge now c m keeps (patch_schema-Positive is_key b c valid)
                (find_unique-All (λ (n : Milestone). n.id) m.id IsSettled m db.milestones all at))
              all)
      ]
  call-AllSettled (remove auth username id outcome) db all =
      elim (delete_milestone_changes auth username id db outcome) [
        | inl same ↦ subst AllSettled (sym same) all
        | inr (p, m, owner, at, of, new) ↦
            subst AllSettled (sym new)
              (delete_where-All (λ (n : Milestone). n.id) m.id IsSettled db.milestones all)
      ]
  call-AllSettled (support v now outcome b) db all =
      let (reply, db') = post_support is_key skip v now outcome b db in
      support-AllSettled is_key skip v now b db db' reply
        (post_support-Answered is_key skip v now b db outcome) all

  -- Over any history of milestone requests and payments that run one after the other, by any callers
  -- and whatever the database answers, every milestone has a positive target, and one whose amount has come to its target is
  -- marked reached: none stays open behind a payment, a change of its target or of its asset. It asks
  -- of the conversion of amounts to doubles only that it keeps their order.
  pub calls-AllSettled :
      (cs : List Call) (db : Db) → AllSettled db → AllSettled (calls is_key number_ge skip cs db)
  unfolding calls
  calls-AllSettled [] db all = all
  calls-AllSettled (c ∷ cs) db all =
      calls-AllSettled cs (call is_key number_ge skip c db) (call-AllSettled c db all)
