-- ===== src/Schema.antt =====
-- The rows of the tables that the modelled code reads and writes (backend/app/db/models/).
mod Road
mod Analysis
mod Maintenance
mod Platform
mod Dashboard
pub use Road.*
pub use Analysis.*
pub use Maintenance.*
pub use Platform.*
pub use Dashboard.*
