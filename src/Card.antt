-- ===== src/Card.antt =====
-- src/mgrtrans.c: what the manager does with an IC35. Card/Link connects, Card/Dir and Card/File are
-- the operations on memory cards, Card/Backup saves and restores the database. Opening and closing
-- the device are I/O; malloc() succeeds; a descriptor is never NULL.
pub mod Link
pub mod Dir
pub mod File
pub mod Backup
pub mod Read
pub mod Copy
pub mod Saving
pub mod Restoring
pub mod RoundTrip
pub mod Path
pub mod Names
pub mod Paths
pub mod Program
pub mod Commands
pub mod Trees
mod Examples
