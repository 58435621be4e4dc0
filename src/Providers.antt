-- ===== src/Providers.antt =====
-- providers: the implementations of the interfaces by external commands.
pub mod Libvirt
pub mod Dns
pub mod Csr
pub mod Vfkit
pub mod Odf
pub mod Host
pub mod Download
