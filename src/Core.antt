-- ===== src/Core.antt =====
-- What the packages share: core/errors.py and the exceptions derived from it, the checks that
-- raise them, times, texts and the contexts of core/context.py.
mod Errors
mod Context
pub mod Time
pub mod Text
pub mod Decimal
pub mod Exec
pub use Errors.*
pub use Context.*
