-- ===== src/Exec.antt =====
-- Handlers and services as actions on a database session. A SQLAlchemy `AsyncSession` shows the rows
-- as this request sees them and the rows that are committed; `get_db` (app/database/session.py) opens
-- one for each request and closes it at the end, which drops what was not committed. A raise keeps
-- what was written before it, so the state comes back beside the error too.
use orbita_backend.Prelude.{ℕ, String, Bool, Option, none, some, if◌then◌else◌}
use orbita_backend.Data.{Db}

-- What the code raises: an `HTTPException` with its status and detail, and the exceptions that one
-- part raises and another catches.
pub data Error : Type 0 where
  http : ℕ → String → Error
  value_error permission_error key_error integrity_error : Error
  rate_limited provider_unavailable invalid_institutional_email : Error
  identity_link_conflict : String → Error

pub data Result (A : Type 0) : Type 0 where
  ok : A → Result A
  err : Error → Result A

pub record Session : Type 0 where
  pub db : Db
  pub saved : Db

abbrev pub Action : Type 0 → Type 0
Action A = Session → Result A × Session

module _ {A : Type 0} where
  abbrev pub pure : A → Action A
  pure a s = (ok a, s)

  abbrev pub raise : Error → Action A
  raise e s = (err e, s)

  abbrev pub gets : (Db → A) → Action A
  gets f s = (ok (f s.db), s)

  abbrev pub or_raise : Option A → Error → Action A
  or_raise none e s = (err e, s)
  or_raise (some a) e s = (ok a, s)

module _ {A B : Type 0} where
  abbrev pub continue : Result A → (A → Action B) → Action B
  continue (ok a) f s = f a s
  continue (err e) f s = (err e, s)

infixl 5 ◌>>=◌ ◌>>◌
abbrev pub ◌>>=◌ : {A B : Type 0} → Action A → (A → Action B) → Action B
◌>>=◌ m f s = let (r, s') = m s in continue r f s'

abbrev pub ◌>>◌ : {A B : Type 0} → Action A → Action B → Action B
m >> k = m >>= λ _. k

-- an INSERT, UPDATE or DELETE, or a change of a loaded row
abbrev pub modify : (Db → Db) → Action (Unit {0})
modify f s = (ok tt, record s { db = f s.db })

abbrev pub raise_if : Bool → Error → Action (Unit {0})
raise_if b e s = if b then (err e, s) else (ok tt, s)

abbrev pub unless : Bool → Action (Unit {0}) → Action (Unit {0})
unless b m s = if b then (ok tt, s) else m s

abbrev pub only_if : Bool → Action (Unit {0}) → Action (Unit {0})
only_if b m s = if b then m s else (ok tt, s)

-- `await db.commit()`
abbrev pub commit : Action (Unit {0})
commit s = (ok tt, record s { saved = s.db })

-- `await db.rollback()`
abbrev pub rollback : Action (Unit {0})
rollback s = (ok tt, record s { db = s.saved })

-- `try: m  except …: handler`, for a handler that says which errors it takes and what it then does
abbrev pub handle : {A : Type 0} → (Error → Action A) → Result A → Action A
handle h (ok a) s = (ok a, s)
handle h (err e) s = h e s

abbrev pub catch : {A : Type 0} → Action A → (Error → Action A) → Action A
catch m h s = let (r, s') = m s in handle h r s'

abbrev pub session : Db → Session
session d = record { db = d; saved = d }

-- One request: a session over the committed rows, and the rows that are committed when it closes.
abbrev pub run : {A : Type 0} → Action A → Db → Result A × Db
run m d = let (r, s) = m (session d) in (r, s.saved)
