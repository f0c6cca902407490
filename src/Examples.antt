-- ===== src/Examples.antt =====
-- The theorems at concrete inputs, and runs of the model.
mod Books
mod Ladders
mod Amounts
mod Feeds
mod Publishing
mod Streams
mod Network
mod Rings
mod Pipelines
mod Runners
mod Clients
mod CommandLines
mod Reports
mod Requests
