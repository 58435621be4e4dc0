-- ===== src/Interfaces.antt =====
-- interfaces/interfaces.go and interfaces/stage.go: the narrow interfaces through which the
-- program acts on the world, as records of actions over an unknown state of the world.
pub mod Os
pub mod Stage
pub mod Providers
pub mod Install
