-- ===== src/Catalog/Data.antt =====
-- app/qml/js/CommandCatalog.js: the categories.
pub mod Climate
pub mod Charging
pub mod Body
pub mod Others
