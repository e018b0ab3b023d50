-- ===== src/Dashboard.antt =====
-- app/qml/js/VehicleState.js: the status that the dashboard shows, merged from the answers of the
-- vehicle, and the model that it draws.
pub mod Json
pub mod Status
pub mod Models
mod Tests
