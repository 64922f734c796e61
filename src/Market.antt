-- ===== src/Market.antt =====
-- packages/api/src/modules/marketplace/marketplace.service.ts: lots, orders and the steps of an
-- order. Each child is about a part of that file.
pub mod Lots
pub mod Listings
pub mod Offers
pub mod Transitions
pub mod Steps
pub mod Sweep
pub mod Orders
pub mod Routes
pub mod Invariant
pub mod Quantities
pub mod Progress
pub mod Access
pub mod Listed
pub mod Timing
pub mod Effects
pub mod Browse
