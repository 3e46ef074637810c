-- ===== src/Interfaces.antt =====
-- The classes and protocols that Feather's headers declare, as records of their operations.
pub mod Base
pub mod Package
pub mod Object
pub mod Controller
pub mod Database
pub mod Notifications
pub mod Embedded
pub mod Document
pub mod Contributor
pub mod Xml
pub mod Tree
pub mod Foundation
pub mod Exceptions
