-- ===== src/Examples.antt =====
-- Runs of the models on small inputs, at which the theorems of the other modules are applied.
mod Enrollment
mod Sessions
mod Requests
mod Logins
mod Sends
mod Ingest
mod Reads
mod Publishing
mod Accounts
mod Api
mod Linking
mod Server
mod Spooling
mod Commands
