-- ===== src/Scripts.antt =====
-- The scripts of the repository: the migration runner, and the checks of its files.
pub mod Migrate
pub mod PythonLock
pub mod Manifest
pub mod Contracts
pub mod SecretScan
pub mod Lockfiles
