-- ===== src/Lib.antt =====
-- A verification library for the Python of the ansible-course repository.
--
-- The repository is a course on Ansible: playbooks, roles and inventories, which are data for Ansible,
-- and programs in Python, which are modelled here.
--
-- VersionFilter     filter_plugins/my_filters.py: Jinja filters that playbooks use
-- InventoryScript   get_inventory.py: an example of a dynamic inventory
-- GithubRepo        library/github_repo.py: a module that creates or deletes a repository
-- Todo              todo-flask-postgres/todo.py: the web application that the course deploys
-- Zabbix            zabbix/zabbix.py: an inventory taken from a Zabbix server
-- AnsibleMitogen    mitogen-0.2.9/ansible_mitogen, Ansible's extension for mitogen:
--   Contexts        services.py: the contexts that all workers share, and their references
--   Affinity        affinity.py: which CPUs processes are pinned to
--   Hashbang        parsing.py: interpreter lines
--   Planner         planner.py: how a module is recognised and where it is run
--   Transport       transport_config.py: a connection's configuration from Ansible's variables
--   Connection      connection.py: the hops from the controller to a target, a connection's life
--                   (Lifecycle), what is sent over it (Sending), and local connections (Local)
--   Target          target.py: file modes (Chmod), files put in place (Files), asynchronous jobs (Async),
--                   trees that are removed and temporary directories (Trees), commands (Commands)
--   Workers         process.py: the multiplexer that a worker is connected to, and the start and end of the
--                   multiplexers (Muxes)
--   ModuleFinder    module_finder.py: the module of a dotted name, and the scan for imports (Scan)
--   Actions         mixins.py: what actions ask of the target in place of shell commands
--   Strategy        strategy.py: the supported releases, and what is patched while a strategy runs
--   Runner          runner.py: what a run of a module changes in its process and puts back (NewStyle, Run,
--                   Process, EnvFile, TempFiles), and the programs that are written and run (Programs)
-- Base              shared: Boolean tests, keys, dictionaries in insertion order, lists, decimals, bits
--
-- A Python function is a function by clauses of the same name; a class is a record with a function for
-- each method, which returns the changed record; an exception is a value of an Outcome or Result type.
-- A dictionary is an association list in insertion order (Base.Dict), read by `get`, written by
-- `set_item`. Texts that the code takes apart are lists of code points, others are strings.
--
-- What the repository does not hold is a parameter: the Zabbix API, the GitHub API, natsort, Flask's
-- database, configparser and argparse. Loops run over lists and trees, so the model needs no fuel, but for
-- the decimal digits of a number n, where n + 1 rounds are given and no number has more digits, and the
-- stack of hops, where each round but the first names a host of the inventory that is new, so that a
-- round for each host and two more are enough. The scan for imports has a round for each module that can
-- be found and one more.
--
-- A service with threads is a step relation: each step is what one method does while it holds the lock,
-- and the theorems speak of all orders of the steps. Calls of the mitogen library are events in order,
-- or the steps that they lead to.
--
-- A module that is run in the process is any function of the process's state, so that what is shown of
-- a run holds whatever the module does. A call that may raise is an outcome that is given, for all
-- outcomes. The moment at which an alarm goes off is given in the same way.
--
-- Not modelled: playbooks, roles, templates and inventories (no Python), network and file input and
-- output, logging, the mitogen library under mitogen-0.2.9/mitogen and the copies of other projects
-- under compat, and of ansible_mitogen the set-up of its processes and of the services in them.
pub mod Base
pub mod VersionFilter
pub mod InventoryScript
pub mod GithubRepo
pub mod Todo
pub mod Zabbix
pub mod AnsibleMitogen
