-- ===== src/Runtime.antt =====
-- What the builder runs on: errors and state-bag values, the platform that answers its calls, the
-- machine that it changes, and the calls on files. Each part is a child, passed on here.
mod Errors
mod Values
mod Host
mod Effects
mod FileCalls
unfoldable pub use Errors.*
unfoldable pub use Values.*
unfoldable pub use Host.*
unfoldable pub use Effects.*
unfoldable pub use FileCalls.*
