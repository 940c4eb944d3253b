-- ===== src/Operator.antt =====
-- pkg/operator: the operator that keeps the controller managers in step with their configuration.
pub mod Capabilities
pub mod Types
pub mod Api
pub mod ConfigMaps
pub mod Deployments
pub mod Conditions
pub mod Sync
pub mod Queue
pub mod UserCa
pub mod Starter
pub mod GenericClient
mod Sample
pub mod Checks
