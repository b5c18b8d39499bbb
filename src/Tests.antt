-- ===== src/Tests.antt =====
-- The sample state, and the theorems at small inputs.
mod Sessions
mod Pages
mod Views
mod Samples
mod Tables
mod Stores
mod Handlers
mod Histories
mod Routes
mod Seeds
