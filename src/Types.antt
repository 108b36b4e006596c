-- ===== src/Types.antt =====
-- The containers of eth2/beacon/types and the names of eth2/beacon/typing.py and constants.py.
mod Names
mod Config
mod Containers
mod Block
mod State
pub use Names.*
pub use Config.*
pub use Containers.*
pub use Block.*
pub use State.*
