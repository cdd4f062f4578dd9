-- ===== src/Tests.antt =====
-- The theorems at concrete inputs.
mod Data
mod Selecting
mod Inserting
mod Sending
mod Batching
mod Looping
mod Tabling
mod Watching
mod Parsing
mod Starting
mod Listening
mod Reconnecting
mod Asking
mod Deploying
