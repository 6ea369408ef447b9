-- ===== src/Store.antt =====
-- The stored state, and the actions that the services are made of.
-- A request works on a session of its own (backend/app/db/session.py): what it flushes is seen by
-- its own queries, and by others from the commit on. `working` is what the session sees.
mod State
mod Actions
pub mod Rules
pub mod Ensures
pub mod Preserves
pub use State.*
unfoldable pub use Actions.*
