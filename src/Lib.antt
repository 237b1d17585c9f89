-- ===== src/Lib.antt =====
-- Orbita backend: the identity provider of Riwi. It keeps users, their global roles and the apps that
-- trust it, signs users in, and lets an app exchange a one-time code for a token with the roles that
-- the user has in it. The program is a FastAPI service over a PostgreSQL database (app/).
--
-- The parts and their files:
--   Data        the rows of the tables, app/modules/*/models.py: one record for each table with the
--               columns that the code reads or writes, and `Db`, the tables as lists of rows.
--   Exec        a handler as an action on a SQLAlchemy session: the rows that it sees, the rows that
--               are committed, and an HTTPException or another exception as a value.
--   Http        what the handlers read of a request.
--   Settings    app/config/settings.py: the settings, the values derived from them and, in
--               Validators, the tests that a deployment passes before the program starts.
--   Crypto      the libraries for hashes and tokens, as parameters.
--   Access      app/modules/access/service.py, the class AccessService: Sources has the resolved role
--               of a user from its sources (reconcile_effective_role, sync_moodle_role,
--               set_manual_global_role, revoke_manual_global_role, ensure_default_role), Grants the
--               grants and the bulk operations, Audit the audit log and the clan, Startup `seed`,
--               `bootstrap_platform_admins` and the `lifespan` of app/main.py.
--   Apps        app/modules/apps/service.py and application_lifecycle.py: Registry has AppService,
--               Policy `resolve_app_access_policy` and RoleService.resolve_access, Roles, Bulk and
--               Catalog the rest of RoleService, Lifecycle ApplicationLifecycleService.
--   Users       app/modules/users/service.py: UserService.
--   Sso         app/modules/auth: Tokens has jwt.py (with the published keys in Jwks), Service has
--               service.py, and Client, Exchange, Introspect, Adopt and Browser the endpoints of
--               router.py for single sign-on.
--   Auth        the rest of app/modules/auth and app/security.py: Passwords has passwords.py, Csrf
--               csrf.py (Signed has the tokens that it accepts),
--               Moodle moodle.py, Microsoft microsoft.py, Guard dependencies.py and the middleware,
--               and Login, Account, External and Callback the endpoints of router.py for a
--               central session.
--   Routers     Launcher and Applications have app/modules/access/router.py, Users
--               app/modules/users/router.py, Apps app/modules/apps/router.py and sync_router.py,
--               Listings the endpoints that list rows, and Schemas the validators and the
--               fields of the request bodies.
--   Listings    the SELECTs behind the listings of the administration, in the services of
--               app/modules/users, apps and access; Routers.Listings has their endpoints.
--   Identity    app/modules/identity/service.py: external accounts resolved into users; Invariant
--               and Unique have what a resolution keeps true of the links.
--   Adapter     clients/fastapi/orbita_sso.py, the client that another app's backend runs: its state is
--               what it keeps between calls and a log of what it sends. Served has the
--               orbita_configuration of app/main.py, which it reads.
--   Migrations  alembic/versions: l0a1b2c3d4e5 in Migrations and PlatformAdmins, m2b3c4d5e6f7 in
--               RoleSources, k0a1b2c3d4e5 in Providers.
--   RateLimit   app/modules/auth/rate_limit.py: MoodleLoginRateLimiter.
--   Closing     theorems on the operations that take access away, over Users, Apps and Sso.
--   Tests       the theorems at concrete rows and requests.
--   Prelude     Boolean tests, tables with their queries, sorted sets of names, texts, and Python's
--               `str` and `int` on numbers.
--
-- How they interact: every endpoint of Sso opens a session on the rows, authenticates the client with
-- Apps, asks Policy for the access of the user, and reads and writes the codes and sessions of
-- Sso.Service. The operations of Users, Apps and Closing revoke sessions, which the introspection
-- sees. Access writes the global roles that Policy reads. A request of a browser passes
-- csrf_and_origin_protection and then the guard of its route; Login, External and
-- Callback open the central session whose token the guards decode, and use RateLimit, Passwords and Identity; the endpoints of
-- Routers are what runs after the guard for administrators, and call Access, Apps and Users.
--
-- A definition has the name of its function in the source. An argument that the source takes from the
-- clock, the random generator or a default of a column (`now`, `jti`, the id of a new row) is an
-- argument of the definition. A statement that SQLAlchemy sends is a function on lists of rows, and a
-- unique constraint that can be violated is the error that the database raises. All loops are
-- recursions on lists, and the printing of a number in decimal or in bytes recurses on the well-founded
-- order of the numbers, so that there is no fuel and no bound. Times are microseconds, ids are natural
-- numbers.
--
-- How the client adapter interacts: it fetches the discovery document and the key set, posts a code to
-- the endpoint of Sso.Exchange and verifies the token that comes back. What the server answers to a
-- call is an argument that may depend on everything sent before.
--
-- Not modelled: columns that only record the time of creation, foreign keys and their cascades, the
-- collation of the database, transactions that run at the same time, letters beyond ASCII in `lower`
-- and `strip`, Starlette's signing of the session cookie, the HTTP calls to Microsoft and Moodle (their
-- decoded answers are arguments), the check of an e-mail address in a request body, the migrations that
-- only create tables and columns, and the middleware stack and routes of the FastAPI application, which
-- are the framework's. PostgreSQL's ILIKE is an argument of the listings. `verify_secret` does not raise
-- for a stored salt that is no hexadecimal number, which the program does not write.
pub mod Prelude
pub mod Data
pub mod Http
pub mod Settings
pub mod Exec
pub mod Crypto
pub mod Access
pub mod Adapter
pub mod Apps
pub mod Users
pub mod Sso
pub mod Closing
pub mod Identity
pub mod RateLimit
pub mod Auth
pub mod Routers
pub mod Tests
pub mod Migrations
pub mod Listings
