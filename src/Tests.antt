-- ===== src/Tests.antt =====
-- Runs of the model at small inputs, and its theorems at inputs where their hypotheses hold.
mod Fixtures
mod Managers
mod Servers
mod Publishing
mod Regions
mod Monitoring
mod Lifecycles
mod Hosting
mod Calls
mod Streams
mod Mains
mod Cleaning
