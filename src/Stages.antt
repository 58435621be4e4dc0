-- ===== src/Stages.antt =====
-- stages/: the steps of the pipeline, one module for each package.
pub mod Allocate
pub mod Register
pub mod Dns
pub mod Network
pub mod MasterVm
pub mod VerifyIp
pub mod Wait
pub mod Odf
pub mod SshKey
pub mod Ignition
pub mod BootIso
pub mod BakeStore
pub mod Kubeconfig
pub mod Binaries
pub mod Rhcos
pub mod Pxe
pub mod TlsCerts
