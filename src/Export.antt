-- ===== src/Export.antt =====
-- frontend/src/lib/export.ts: the table of ingredients in an exported recipe, the names of the
-- exported files, and the blobs that a recipe refers to.
pub mod Table
pub mod Rows
pub mod Cells
pub mod Header
pub mod RoundTrip
pub mod Names
pub mod Markdown
pub mod FrontMatter
pub mod Sections
pub mod Yaml
pub mod Importing
pub mod Imported
pub mod Titles
pub mod Distinct
