-- ===== src/Tests.antt =====
-- The theorems at concrete inputs, and runs of the definitions.
mod Buffers
mod Values
mod System
mod Tiers
mod Examples
mod Formats
mod Outboxes
mod Network
mod Start
mod Programs
mod Drafts
mod Polymorphic
mod Launches
