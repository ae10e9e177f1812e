-- ===== src/Util.antt =====
-- The package practice/util.
pub mod Globals
pub mod ImageName
pub mod Pods
pub mod Clientset
pub mod ImageCheck
pub mod HostPort
