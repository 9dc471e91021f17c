-- ===== src/Dashboard.antt =====
-- web/src: the parts of the dashboard that compute something.
pub mod Form
pub mod Format
pub mod Client
pub mod Access
pub mod Detail
