-- ===== src/Routers/Base.antt =====
-- What the endpoints share: a row or a 404, and an exception of a service as an answer.
use orbita_backend.Prelude.{ℕ, String, Option}
use orbita_backend.Data.{Db}
use orbita_backend.Exec.{
  Action, Error, raise, gets, rollback, catch, or_raise, http, integrity_error, value_error,
  permission_error, ◌>>=◌, ◌>>◌,
}

module _ {A : Type 0} where
  -- `if row is None: raise HTTPException(404, detail)`
  abbrev pub find_or_404 : (Db → Option A) → String → Action A
  find_or_404 query detail = do found ← gets query; or_raise found (http 404 detail)

  -- `except IntegrityError: rollback, 409`
  abbrev pub taken : String → Error → Action A
  taken detail integrity_error = rollback >> raise (http 409 detail)
  taken detail e = raise e

  abbrev pub unless_taken : String → Action A → Action A
  unless_taken detail m = catch m (taken detail)

  -- `except ValueError`, and `except PermissionError` beside it. The detail is the message of the
  -- exception, which the errors here do not carry: the name of its class stands for it.
  abbrev pub refused : ℕ → Error → Action A
  refused status value_error = raise (http status "ValueError")
  refused status permission_error = raise (http status "PermissionError")
  refused status e = raise e

  abbrev pub unless_refused : ℕ → Action A → Action A
  unless_refused status m = catch m (refused status)
