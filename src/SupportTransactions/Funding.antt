-- ===== src/SupportTransactions/Funding.antt =====
-- What the payments of POST /v1/support-transactions add to a milestone, against an abstract fund.
use nova_support.Base.{
  ◌⊎◌, ℕ, ◌+◌, ◌≡◌, refl, ◌∙◌, inl, inr, Bool, true, false, ◌&&◌, List, [], ◌∷◌, String, arith,
  str_eq, leb, map, if◌then◌else◌,
}
use nova_support.Store.{Db, Milestone, MilestoneStatus, SupportTransaction, Outcome, same_issuer}
use nova_support.SupportTransactions.{
  Body, Reply, error, duplicate_tx, created, Verification, post_support, credit, increment,
  is_funded_by, record_support,
}
use nova_support.SupportTransactions.Recorded.{Answered, post_support-Answered}

-- A request and what the world answers to it.
pub record Request : Type 0 where
  pub verification : Verification
  pub now : ℕ
  pub outcome : Outcome
  pub body : Body

module _ (is_key : String → Bool) (skip : Bool) where
  abbrev pub post : Request → Db → Reply × Db
  post r db = post_support is_key skip r.verification r.now r.outcome r.body db

  -- A history of requests: the tables after it, and the rows that it answered with.
  unfoldable pub run : List Request → Db → Db
  unfolding post_support
  run [] db = db
  run (r ∷ rs) db = run rs (post r db).1

  abbrev pub answered_row : Reply → List SupportTransaction → List SupportTransaction
  answered_row (created t) ts = t ∷ ts
  answered_row (error status code) ts = ts
  answered_row (duplicate_tx hash) ts = ts

  pub payments : List Request → Db → List SupportTransaction
  unfolding post_support
  payments [] db = []
  payments (r ∷ rs) db = answered_row (post r db).0 (payments rs (post r db).1)

-- The abstract view of a milestone: what was raised, until the target is reached.
pub record Fund : Type 0 where
  pub raised : ℕ
  pub target : ℕ
  pub closed : Bool

pub pay : ℕ → Fund → Fund
pay n f =
    if f.closed then f else record f { raised = f.raised + n; closed = leb f.target (f.raised + n) }

-- The payments that are for the milestone: of its profile, in its asset.
abbrev pub is_for : Milestone → SupportTransaction → Bool
is_for m t =
    str_eq m.profile_id t.profile_id
    && str_eq m.asset_code t.asset_code
    && same_issuer m.asset_issuer t.asset_issuer

pub pay_all : Milestone → List SupportTransaction → Fund → Fund
unfolding pay
pay_all m [] f = f
pay_all m (t ∷ ts) f = pay_all m ts (if is_for m t then pay t.amount f else f)

abbrev pub is_closed : MilestoneStatus → Bool
is_closed MilestoneStatus.active = false
is_closed MilestoneStatus.reached = true

abbrev pub fund_of : Milestone → Fund
fund_of m = record {
  raised = m.current_amount;
  target = m.target_amount;
  closed = is_closed m.status;
}

status-cases : (s : MilestoneStatus) → (s ≡ MilestoneStatus.active) ⊎ (s ≡ MilestoneStatus.reached)
status-cases MilestoneStatus.active = inl refl
status-cases MilestoneStatus.reached = inr refl

module _ (now : ℕ) (t : SupportTransaction) (m : Milestone) where
  credit-fund :
      fund_of (credit now t m) ≡ (if is_for m t then pay t.amount (fund_of m) else fund_of m)
  unfolding credit is_funded_by increment pay
  credit-fund = elim (status-cases m.status) [ inl e ↦ ground arith | inr e ↦ ground arith ]

  credit-is_for : (u : SupportTransaction) → is_for (credit now t m) u ≡ is_for m u
  unfolding credit increment
  credit-is_for u = ground arith

  credit-pay_all :
      (ts : List SupportTransaction) (f : Fund) → pay_all (credit now t m) ts f ≡ pay_all m ts f
  unfolding pay_all
  credit-pay_all [] f = refl
  credit-pay_all (u ∷ ts) f =
      rw (credit-is_for u) (credit-pay_all ts (if is_for m u then pay u.amount f else f))

module _ (now : ℕ) (t : SupportTransaction) (ts : List SupportTransaction) where
  map-credit :
      (ms : List Milestone)
      → map (λ m. pay_all m ts (fund_of m)) (map (credit now t) ms)
        ≡ map (λ m. pay_all m (t ∷ ts) (fund_of m)) ms
  unfolding pay_all
  map-credit [] = refl
  map-credit (m ∷ ms) = rw (map-credit ms, credit-fund now t m, credit-pay_all now t m ts) refl

module _ (is_key : String → Bool) (skip : Bool) where
  -- Over any history of requests that run one after the other the milestones refine the abstract funds:
  -- a milestone's amount and status after the history are those of its fund after the payments that the route recorded, each
  -- counted for the milestones of its profile in its asset until the target is reached, and no
  -- milestone is added, lost or reordered.
  pub run-fund_of :
      (rs : List Request) (db : Db)
      → map fund_of (run is_key skip rs db).milestones
        ≡ map (λ m. pay_all m (payments is_key skip rs db) (fund_of m)) db.milestones
  unfolding run payments pay_all record_support
  run-fund_of [] db = refl
  run-fund_of (r ∷ rs) db =
      let (reply, db') = post is_key skip r db in
      run-fund_of rs db'
      ∙ step reply db' (post_support-Answered is_key skip r.verification r.now r.body db r.outcome)
          (payments is_key skip rs db')
    where
      step :
          (reply : Reply) (db' : Db)
          → Answered is_key skip r.verification r.now r.body db reply db'
          → (ts : List SupportTransaction)
          → map (λ m. pay_all m ts (fund_of m)) db'.milestones
            ≡ map (λ m. pay_all m (answered_row is_key skip reply ts) (fund_of m)) db.milestones
      step (error status code) db' same ts = rw same refl
      step (duplicate_tx hash) db' (n, valid, conflict, same) ts = rw same refl
      step (created t) db' (n, valid, row, checked, free, same) ts =
          rw same (map-credit r.now t ts db.milestones)
