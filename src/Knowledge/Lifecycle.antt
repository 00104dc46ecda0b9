-- ===== src/Knowledge/Lifecycle.antt =====
-- apps/api/src/apbra_api/knowledge_lifecycle.py: the journal of one document, which is a pure
-- function of the commands and observations submitted for it.
mod Types
mod Shapes
mod Replay
mod Commands
pub mod Valid
pub mod Fresh
pub mod Begin
pub mod Target
pub mod Longer
pub mod Observe
pub mod History
mod Tests
unfoldable pub use Types.*
unfoldable pub use Shapes.*
unfoldable pub use Replay.*
unfoldable pub use Commands.*
