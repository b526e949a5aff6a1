-- ===== src/Buffer.antt =====
-- `BufferedUploadManager` of src/buffered_upload_manager.rs.
pub mod World
pub mod Disk
pub mod Names
pub mod Store
pub mod Scan
pub mod Upload
mod Runs
mod UploadRuns
pub mod LogRuns
