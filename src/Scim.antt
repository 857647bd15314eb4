-- ===== src/Scim.antt =====
-- internal/scim: the filter and path parsers, PATCH, the translation of filters to SQL, and the services of users and groups.
pub mod Text
pub mod Lexer
pub mod Filter
pub mod Path
pub mod Json
pub mod Properties
pub mod Patch
pub mod Groups
pub mod Users
pub mod Sql
pub mod Listing
pub mod Store
pub mod Effects
pub mod Serving
