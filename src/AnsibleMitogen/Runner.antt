-- ===== src/AnsibleMitogen/Runner.antt =====
-- mitogen-0.2.9/ansible_mitogen/runner.py: how a target runs a module, and what is put back after it.
pub mod EnvFile
pub mod TempFiles
pub mod Process
pub mod NewStyle
pub mod Programs
pub mod Run
