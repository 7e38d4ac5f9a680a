-- ===== src/Tests.antt =====
-- The theorems at concrete inputs, over a platform that answers.
mod World
mod Builds
mod Settings
mod Keys
mod Client
mod Copies
