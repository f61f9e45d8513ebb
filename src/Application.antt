-- ===== src/Application.antt =====
-- The application around the library: its options, and the update of all components of a node.
pub mod Configuration
pub mod Node
