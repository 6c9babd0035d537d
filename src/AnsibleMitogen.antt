-- ===== src/AnsibleMitogen.antt =====
-- mitogen-0.2.9/ansible_mitogen: the Ansible extension that runs modules over mitogen. The mitogen
-- library that it calls is not modelled: its contexts, calls and signals are parameters here.
pub mod Contexts
pub mod Affinity
pub mod Hashbang
pub mod Planner
pub mod Transport
pub mod Connection
pub mod Target
pub mod Workers
pub mod ModuleFinder
pub mod Runner
pub mod Strategy
pub mod Actions
