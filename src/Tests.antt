-- ===== src/Tests.antt =====
-- The theorems at concrete inputs, and runs of the definitions.
mod Search
mod Numbers
mod Mirrors
mod Refresh
mod Patterns
mod Packet
mod Manifests
mod Presence
mod Bridge
mod Account
mod Settings
mod Lua
mod Alias
