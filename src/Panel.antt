-- ===== src/Panel.antt =====
-- The requests of the panel (app/portal_app/routers) that change the portal's tables or VM2.
pub mod Client
pub mod Mailboxes
pub mod Passwords
pub mod Deletion
pub mod Webmail
pub mod Updates
pub mod Settings
pub mod Requests
pub mod Domains
pub mod Live
pub mod AppUpdate
