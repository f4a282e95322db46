-- ===== src/Files.antt =====
-- pkg/files: the disk store.
pub mod Model
pub mod Text
pub mod Usage
pub mod Disk
pub mod World
pub mod Io
pub mod Read
pub mod Account
pub mod Put
pub mod Recovery
pub mod Ready
pub mod Sweep
pub mod Upload
pub mod Trash
pub mod Listing
pub mod Tests
