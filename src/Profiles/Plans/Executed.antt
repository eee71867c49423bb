-- ===== src/Profiles/Plans/Executed.antt =====
-- What the execution of a plan leaves, when the plan keeps the accounts sound.
use nova_support.Base.{
  ◌≡◌, refl, Bool, true, false, ◌||◌, not, Option, some, List, String, if◌then◌else◌, All, All-imp,
  is_some,
}
use nova_support.Store.{Reply, ok, error, find_unique, update_where}
use nova_support.Store.Rows.{update_where-All}
use nova_support.Profiles.Rows.{ids_distinct-update_where, ids_distinct}
use nova_support.Profiles.{
  Account, Mail, State, id_of, Change, changed, Plan, refuse, write, outbox, execute, email_taken,
  token_taken, mail_answered,
}
use nova_support.Profiles.Mails.{is_sound, is_sound-outbox}

-- The plan writes to a row that is there, and leaves it sound.
pub Keeps : List String → State → Plan → Type 0
Keeps p s (refuse r) = Unit
Keeps p s (write id change mail) =
    (a : Account) × (find_unique id_of id s.accounts ≡ some a)
    × (is_sound p (outbox mail s.mailed) (changed change a) ≡ true)

-- The accounts have distinct ids and are sound.
unfoldable pub Holds : List String → State → Type 0
Holds p s = (ids_distinct s.accounts ≡ true) × All (λ a. is_sound p s.mailed a ≡ true) s.accounts

-- What an answer leaves.
pub Leaves : List String → Reply × State → Type 0
Leaves p r = Holds p r.1

pub Leaves-intro : (p : List String) (r : Reply) (s : State) → Holds p s → Leaves p (r, s)
unfolding Leaves
Leaves-intro p r s h = h

pub Leaves-state : (p : List String) (r : Reply × State) → Leaves p r → Holds p r.1
unfolding Leaves
Leaves-state p r h = h

pub Leaves-mail_answered :
    (p : List String) (sent : Bool) (r : Reply × State)
    → Leaves p r
    → Leaves p (mail_answered sent r)
unfolding Leaves mail_answered
Leaves-mail_answered p true r h = h
Leaves-mail_answered p false (ok status, s) h = h
Leaves-mail_answered p false (error status code, s) h = h

pub Leaves-if :
    (p : List String) (b : Bool) (x y : Reply × State)
    → Leaves p x
    → Leaves p y
    → Leaves p (if b then x else y)
Leaves-if p true x y hx hy = hx
Leaves-if p false x y hx hy = hy

pub written-Holds :
    (p : List String) (id : String) (change : Change) (mail : Option Mail) (s : State) (a : Account)
    → Holds p s
    → find_unique id_of id s.accounts ≡ some a
    → is_sound p (outbox mail s.mailed) (changed change a) ≡ true
    → Holds p (record s {
      accounts = update_where id_of id (changed change) s.accounts;
      mailed = outbox mail s.mailed;
    })
unfolding Holds changed
written-Holds p id change mail s a h found after = (
  ids_distinct-update_where (changed change) (λ b. refl) id s.accounts h.0,
  update_where-All id_of id (λ b. is_sound p (outbox mail s.mailed) b ≡ true) (changed change) a
      s.accounts found after
      (All-imp (λ b. is_sound p s.mailed b ≡ true) (λ b. is_sound p (outbox mail s.mailed) b ≡ true)
        (is_sound-outbox mail p s.mailed) s.accounts h.1),
)

pub execute-Leaves :
    (conflict : String → Reply) (p : List String) (up : Bool) (plan : Plan) (s : State)
    → Holds p s
    → Keeps p s plan
    → Leaves p (execute conflict up plan s)
unfolding execute Keeps
execute-Leaves conflict p up (refuse r) s h keeps = Leaves-intro p r s h
execute-Leaves conflict p up (write id change mail) s h (a, found, after) =
    Leaves-if p (not up || not (is_some (find_unique id_of id s.accounts))) _ _
      (Leaves-intro p _ s h)
      (Leaves-if p (email_taken id change.email s.accounts) _ _ (Leaves-intro p _ s h) (
        Leaves-if p (token_taken id change.email_verification_token s.accounts) _ _
          (Leaves-intro p _ s h)
          (Leaves-intro p _ _ (written-Holds p id change mail s a h found after))))

pub Keeps-if :
    (p : List String) (s : State) (b : Bool) (x y : Plan)
    → (b ≡ true → Keeps p s x)
    → (b ≡ false → Keeps p s y)
    → Keeps p s (if b then x else y)
Keeps-if p s true x y hx hy = hx refl
Keeps-if p s false x y hx hy = hy refl

pub Keeps-refuse : (p : List String) (s : State) (r : Reply) → Keeps p s (refuse r)
unfolding Keeps
Keeps-refuse p s r = tt

pub Keeps-write :
    (p : List String) (s : State) (a : Account) (id : String) (change : Change) (mail : Option Mail)
    → find_unique id_of id s.accounts ≡ some a
    → is_sound p (outbox mail s.mailed) (changed change a) ≡ true
    → Keeps p s (write id change mail)
unfolding Keeps
Keeps-write p s a id change mail found after = (a, found, after)
