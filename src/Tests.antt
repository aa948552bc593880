-- ===== src/Tests.antt =====
-- The theorems at concrete inputs: keys, texts, the network, the index, the graph script, the schedule, the
-- requests, the store, its scans and sessions, and the creation of graphs.
mod Keys
mod Texts
mod Net
mod Names
mod Script
mod Coroutines
mod Requests
mod Store
mod Scans
mod Upserts
mod Sessions
mod Index
mod Inserts
mod Creations
