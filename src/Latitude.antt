-- ===== src/Latitude.antt =====
-- providers/latitude: the Latitude.sh provider. Modelled is its own persisted state.
pub mod Index
