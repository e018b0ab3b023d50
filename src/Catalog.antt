-- ===== src/Catalog.antt =====
-- app/qml/js/CommandCatalog.js and the pages that show it: the catalogue of commands, the page of a
-- category, and the form of the arguments; and the side of the core, helper/src/commands.rs with the
-- ranges of arguments in helper/src/core.rs.
pub mod Items
pub mod Data
pub mod Search
pub mod Page
pub mod Dialog
pub mod Commands
pub mod Strokes
mod Tests
