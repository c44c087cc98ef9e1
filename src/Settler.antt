-- ===== src/Settler.antt =====
-- apps/matcher/src/settler: `SettlerService`, the transaction that matches and settles.
pub mod Work
pub mod Keeps
pub mod Settlement
pub mod Fill
pub mod Sweep
pub mod Events
pub mod Guards
pub mod Submit
pub mod Cancel
