-- ===== src/Ecs.antt =====
-- Package hECS: objects, their components and the systems that call the components.
pub mod Systems
pub mod Objects
pub mod Components
pub mod Templates
mod Examples
