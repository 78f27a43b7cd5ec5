-- ===== src/Upload.antt =====
-- Files that are uploaded as evidence (xportra/domain/evidence_upload.py): the checks on a file,
-- its key in the storage, and the text that is taken from it.
pub mod Files
pub mod Keys
pub mod Images
pub mod Checks
pub mod KeySafety
pub mod Bounds
pub mod Pdf
pub mod Docx
pub mod Extract
pub mod Literals
pub mod Clean
mod Tests
