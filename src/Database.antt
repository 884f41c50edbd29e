-- ===== src/Database.antt =====
-- The part of PostgreSQL that the repositories rely on: one transaction of one connection, as the
-- `try { BEGIN … COMMIT } catch { ROLLBACK; throw } finally { release }` blocks of
-- src/auth/authentication.repository.ts and src/notifications/sms-configuration.repository.ts
-- use it, and the row operations of their statements. A statement sees and changes the working
-- state; COMMIT makes it the stored one; ROLLBACK goes back to the stored one. Rows are locked
-- (`FOR UPDATE`) where a method reads before it writes, so a transaction is one step.
mod Tables
pub mod Results
pub mod Order
pub use Tables.*
use public_parks.Prelude.{ℕ, String, Bool, true, false, Option, none, some, if◌then◌else◌}
use public_parks.Errors.{Exception, other}

pub data Result {ℓ} (A : Type ℓ) : Type ℓ where
  ok : A → Result A
  err : Exception → Result A

pub record Connection (S : Type 0) : Type 0 where
  pub stored : S
  pub working : S

abbrev pub Tx : Type 0 → Type 0 → Type 0
Tx S A = Connection S → Result A × Connection S

-- The continuation after a statement: an exception skips it.
abbrev pub continue :
    {S A B : Type 0} → Result A × Connection S → (A → Tx S B) → Result B × Connection S
continue (ok a, c) f = f a c
continue (err e, c) f = (err e, c)

infixl 5 ◌>>=◌ ◌>>◌
abbrev pub ◌>>=◌ : {S A B : Type 0} → Tx S A → (A → Tx S B) → Tx S B
◌>>=◌ m f c = continue (m c) f

abbrev pub ◌>>◌ : {S B : Type 0} → Tx S (Unit {0}) → Tx S B → Tx S B
◌>>◌ m k c = continue (m c) (λ _. k)

abbrev pub pure : {S A : Type 0} → A → Tx S A
pure a c = (ok a, c)

abbrev pub raise : {S A : Type 0} → Exception → Tx S A
raise e c = (err e, c)

-- A statement that reads.
abbrev pub select : {S A : Type 0} → (S → A) → Tx S A
select f c = (ok (f c.working), c)

-- A statement that writes.
abbrev pub update : {S : Type 0} → (S → S) → Tx S (Unit {0})
update f c = (ok tt, record c { working = f c.working })

abbrev pub commit : {S : Type 0} → Tx S (Unit {0})
commit c = (ok tt, record c { stored = c.working })

abbrev pub rollback : {S : Type 0} → Tx S (Unit {0})
rollback c = (ok tt, record c { working = c.stored })

-- What the driver throws when an insertion breaks a unique index or a primary key.
abbrev pub unique_violation : Exception
unique_violation = other "duplicate key value violates unique constraint"

-- A statement that inserts, unless the new row collides with one of the table.
abbrev pub insert_unless : {S : Type 0} → (S → Bool) → (S → S) → Tx S (Unit {0})
insert_unless collides f c =
    if collides c.working
    then (err unique_violation, c)
    else (ok tt, record c { working = f c.working })

abbrev pub finish : {S A : Type 0} → Result A × Connection S → Result A × S
finish (ok a, c) = (ok a, c.stored)
finish (err e, c) = (err e, c.stored)

-- A whole block: the result, and the stored state after it. The ROLLBACK of an exception leaves
-- what was stored; so does the release of the connection.
abbrev pub in_transaction : {S A : Type 0} → Tx S A → S → Result A × S
in_transaction body s = finish (body (record { stored = s; working = s }))
