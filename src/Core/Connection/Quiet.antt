-- ===== src/Core/Connection/Quiet.antt =====
-- Steps that complete nothing.
mod Quietness
mod Setup
mod Calls
pub use Quietness.*
pub use Setup.*
pub use Calls.*
