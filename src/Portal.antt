-- ===== src/Portal.antt =====
-- The captive portal of main/http_server.c.
pub mod Quota
pub mod Sessions
pub mod State
pub mod Start
pub mod Clients
pub mod Events
pub mod Pages
