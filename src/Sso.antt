-- ===== src/Sso.antt =====
-- app/modules/auth: single sign-on. Codes, sessions and logout tickets (Service), the tokens
-- (Tokens), and the endpoints that other apps' backends call (Exchange, Introspect, Adopt) or that
-- the browser visits (Browser).
pub mod Tokens
pub mod Service
pub mod Client
pub mod Exchange
pub mod Introspect
pub mod Adopt
pub mod Browser
unfoldable pub use Tokens.*
unfoldable pub use Service.*
unfoldable pub use Client.*
unfoldable pub use Exchange.*
unfoldable pub use Introspect.*
unfoldable pub use Adopt.*
unfoldable pub use Browser.*
