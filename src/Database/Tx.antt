-- ===== src/Database/Tx.antt =====
-- Interactive transactions: an error rolls every write back, so an error carries no state.
use living_cost_manager.Prelude.{
  ℕ, List, Text, Bool, true, false, Option, none, some, ◌≡◌, refl, arith,
}
use living_cost_manager.Database.{Database}

-- The errors that the services throw, with Prisma's P2002, P2003 and P2034, and the errors of
-- `findUniqueOrThrow` and of an `include` without its row.
pub data Failure : Type 0 where
  member_forbidden member_not_found last_owner : Failure
  invitation_forbidden invitation_conflict invalid_invitation : Failure
  user_not_found invalid_credentials workspace_forbidden billing_blocked : Failure
  workspace_conflict : List (ℕ × Text) → Failure
  snapshot_conflict : ℕ → Failure
  snapshot_invalid planning_unavailable planning_forbidden planning_conflict : Failure
  free_workspace_limit feature_not_available email_conflict invalid_request : Failure
  unique_violation foreign_key_violation write_conflict missing_row : Failure

pub data Result {ℓ} (A : Type ℓ) : Type ℓ where
  ok : A → Result A
  err : Failure → Result A

abbrev pub Tx {ℓ} : Type ℓ → Type ℓ
Tx A = Database → Result (A × Database)

abbrev pub and_then {ℓ κ} :
    {A : Type ℓ} {B : Type κ} → Result (A × Database) → (A → Tx B) → Result (B × Database)
and_then (ok (a, db)) f = f a db
and_then (err e) f = err e

infixl 5 ◌>>=◌ ◌>>◌
abbrev pub ◌>>=◌ {ℓ κ} : {A : Type ℓ} {B : Type κ} → Tx A → (A → Tx B) → Tx B
◌>>=◌ m f db = and_then (m db) f

abbrev pub ◌>>◌ {ℓ} : {B : Type ℓ} → Tx (Unit {0}) → Tx B → Tx B
m >> k = m >>= λ _. k

abbrev pub pure {ℓ} : {A : Type ℓ} → A → Tx A
pure a db = ok (a, db)

abbrev pub raise {ℓ} : {A : Type ℓ} → Failure → Tx A
raise e db = err e

abbrev pub gets {ℓ} : {A : Type ℓ} → (Database → A) → Tx A
gets f db = ok (f db, db)

abbrev pub modify : (Database → Database) → Tx (Unit {0})
modify f db = ok (tt, f db)

abbrev pub require : Bool → Failure → Tx (Unit {0})
require true e db = ok (tt, db)
require false e db = err e

abbrev pub or_fail {ℓ} : {A : Type ℓ} → Option A → Failure → Tx A
or_fail none e db = err e
or_fail (some a) e db = ok (a, db)

-- `$transaction(f)`: the state after it, with every write undone on an error
abbrev pub commit {ℓ} : {A : Type ℓ} → Result (A × Database) → Database → Database
commit (ok (a, db')) db = db'
commit (err e) db = db

-- inversion of a successful step
pub and_then-eq-ok {ℓ κ} :
    {A : Type ℓ} {B : Type κ} (r : Result (A × Database)) (f : A → Tx B) {q : B × Database}
    → and_then r f ≡ ok q
    → (a : A) × (db : Database) × (r ≡ ok (a, db)) × (f a db ≡ ok q)
and_then-eq-ok (ok (a, db)) f h = (a, db, refl, h)
and_then-eq-ok (err e) f h = cc

pub require-result :
    (b : Bool) (e : Failure) (db : Database) {after : Database}
    → require b e db ≡ ok (tt, after)
    → (b ≡ true) × (after ≡ db)
require-result true e db h = (refl, ground arith)
require-result false e db h = cc

pub or_fail-ok {ℓ} :
    {A : Type ℓ} (o : Option A) (e : Failure) (db : Database) {a : A} {after : Database}
    → or_fail o e db ≡ ok (a, after)
    → (o ≡ some a) × (after ≡ db)
or_fail-ok none e db h = cc
or_fail-ok (some b) e db h = (ground arith, ground arith)
