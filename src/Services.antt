-- ===== src/Services.antt =====
-- The smaller files of kernel/, each a module.
pub mod Mman
pub mod Socket
pub mod Ioctl
pub mod Clock
pub mod Random
pub mod Sysinfo
pub mod Process
pub mod Obeys
pub mod Mapped
pub mod Regions
