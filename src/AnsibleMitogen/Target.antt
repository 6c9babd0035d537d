-- ===== src/AnsibleMitogen/Target.antt =====
-- mitogen-0.2.9/ansible_mitogen/target.py: functions that run on a target host.
pub mod Chmod
pub mod Files
pub mod Async
pub mod Trees
pub mod Commands
