-- ===== src/Webhook.antt =====
-- imports/api/webhookreceipts/server/store.js: the receipts under which webhook events are processed.
pub mod Receipts
pub mod Store
pub mod Claims
pub mod Leases
mod Tests
