-- ===== src/Projects/Import.antt =====
-- The import of doors from a file: app/modules/projects/application/file_import_service.py.
pub mod Aliases
pub mod Text
pub mod Rows
pub mod Prepare
pub mod Distinct
pub mod Tables
pub mod Previews
pub mod Diagnostics
pub mod Service
pub mod Preview
pub mod Cached
mod Tests
