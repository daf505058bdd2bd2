-- ===== src/Registers.antt =====
-- common/parse.h: the numbers of the registers. The names are passed on.
mod Identification
mod Monitoring
mod Debugging
mod Remaining
mod Gic
pub use Identification.*
pub use Monitoring.*
pub use Debugging.*
pub use Remaining.*
pub use Gic.*
