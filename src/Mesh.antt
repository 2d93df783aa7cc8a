-- ===== src/Mesh.antt =====
-- src/mncs_commons/mesh: the exchange between nodes.
pub mod Availability
