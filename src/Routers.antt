-- ===== src/Routers.antt =====
-- The routers that only an administrator reaches, and the launcher: app/modules/access/router.py
-- (Launcher, Applications), app/modules/users/router.py (Users) and app/modules/apps/router.py with
-- sync_router.py (Apps). An endpoint of these routers is what runs after the guard of its route.
mod Base
pub mod Launcher
pub mod Listings
pub mod Applications
pub mod Users
pub mod Apps
pub mod Schemas
