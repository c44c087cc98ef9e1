-- ===== src/Admin.antt =====
-- apps/api/src/admin: what an operator does to wallets, orders and the outbox.
pub mod AdminWallets
pub mod AdminOrders
pub mod AdminOutbox
pub mod AdminDlq
pub mod AdminUsers
pub mod AdminMarkets
pub mod AdminAssets
pub mod Listings
pub mod Access
pub mod DlqList
