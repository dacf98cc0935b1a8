-- ===== src/Types.antt =====
-- The data that the server and the frontend exchange (frontend/src/types/index.ts), by area.
pub mod Ledger
pub mod Goals
pub mod Assets
pub mod Notifications
pub mod Insurance
pub mod Plans
