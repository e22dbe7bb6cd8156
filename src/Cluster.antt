-- ===== src/Cluster.antt =====
-- Package hCluster: what the master and the location nodes know of the cluster's nodes.
pub mod Types
pub mod Balancer
pub mod Logs
pub mod Selector
pub mod Master
pub mod Location
pub mod Groups
pub mod Examples
pub mod NodeGroup
pub mod Node
pub mod Child
