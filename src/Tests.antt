-- ===== src/Tests.antt =====
-- Runs of the definitions on sample data, and each result applied to it.
mod Samples
mod Market
mod Login
mod Steps
mod DataRules
mod People
mod Access
mod Quality
mod Passports
mod Anchoring
mod Registry
mod Certificates
mod OrderForm
