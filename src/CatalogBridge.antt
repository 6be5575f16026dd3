-- ===== src/CatalogBridge.antt =====
-- src/catalog_bridge.rs: the catalog of models, that is fetched whole and given page by page.
pub mod Secret
pub mod Fetch
pub mod Cursors
pub mod Pages
