-- ===== src/Observe.antt =====
-- pkg/operator/configobservation: the observers that turn cluster configuration into the
-- configuration of the controller manager, and what they share.
pub mod Unstructured
pub mod Listers
pub mod Controllers
pub mod Previous
pub mod Images
pub mod Network
pub mod Field
pub mod DeployImages
pub mod Builds
pub mod Observer
mod Sample
