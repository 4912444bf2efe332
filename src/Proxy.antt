-- ===== src/Proxy.antt =====
-- internal/proxy: the indexer proxy.
pub mod Patterns
pub mod Titles
pub mod Xml
pub mod Query
pub mod Paging
pub mod Handler
pub mod Downloads
