-- ===== src/Controller.antt =====
-- pkg/controller: keeps the mount pods of the node in line with the pods that use them.
pub mod MountInfo
pub mod Target
pub mod Handlers
pub mod Driver
pub mod PodController
pub mod Reconciler
