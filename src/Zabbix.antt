-- ===== src/Zabbix.antt =====
-- zabbix/zabbix.py: the inventory of hosts and host groups of a Zabbix server.
pub mod Groups
pub mod Listing
pub mod Script
mod Tests
use ansible_course.Base.{
  Bool, ℕ, false, String, Text, Option, none, some, List, [], ◌∷◌, ◌++◌, ◌&&◌, ◌==◌, not,
  string_key, if◌then◌else◌,
}
use ansible_course.Base.Lists.{split}
use ansible_course.Base.Dict.{Dict, get, set_item}

-- The answer of the Zabbix API, as far as the script reads it.
pub record Interface : Type 0 where
  pub kind : String  -- `interface['type']`
  pub dns : String
  pub ip : String

pub record Host : Type 0 where
  pub interfaces : List Interface
  pub groups : List String  -- the `name` of each group

pub data Error : Type 0 where
  -- `UnboundLocalError`: `hostname` is read and was never assigned
  unbound_hostname : Error

pub data Result (A : Type 0) : Type 0 where
  ok : A → Result A
  err : Error → Result A

-- A group's stub and its hosts; `meta` is the dictionary that ends up under `_meta`.
pub data Entry : Type 0 where
  hosts : List String → Entry
  meta : Entry

-- `hoststub`
abbrev pub host_stub : List String
host_stub = []

abbrev pub default_group : String
default_group = "group_all"

interface_name : Interface → String
interface_name i = if not (i.dns == "") then i.dns else i.ip

-- The inner loop ends in an unconditional `break`, so it looks at the first interface alone; a
-- first interface that is no agent leaves `hostname` as the loop before left it.
pub hostname_after : Option String → List Interface → Option String
unfolding interface_name
hostname_after hostname [] = hostname
hostname_after hostname (i ∷ _) = if i.kind == "1" then some (interface_name i) else hostname

-- `data[group]['hosts'].append(hostname)`, the stub put in first where the group is new.
pub append_host : Dict String (List String) → String → String → Dict String (List String)
append_host data_ hostname group = elim (get data_ group) [
  | none ↦ set_item data_ group (host_stub ++ (hostname ∷ []))
  | some members ↦ set_item data_ group (members ++ (hostname ∷ []))
]

pub add_groups : Dict String (List String) → String → List String → Dict String (List String)
add_groups data_ hostname [] = data_
add_groups data_ hostname (group ∷ groups) =
    add_groups (append_host data_ hostname group) hostname groups

-- The outer loop, over the hosts: `hostname` outlives each round.
pub add_hosts :
    Dict String (List String) → Option String → List Host → Result (Dict String (List String))
unfolding add_groups
add_hosts data_ hostname [] = ok data_
add_hosts data_ hostname (h ∷ hs) = elim (hostname_after hostname h.interfaces) [
  | none ↦ err unbound_hostname
  | some name ↦
      add_hosts (add_groups (append_host data_ name default_group) name h.groups) (some name) hs
]

pub entries : Dict String (List String) → Dict String Entry
entries [] = []
entries ((g, members) ∷ rest) = (g, hosts members) ∷ entries rest

abbrev finish : Result (Dict String (List String)) → Result (Dict String Entry)
finish (ok groups) = ok (set_item (entries groups) "_meta" meta)
finish (err e) = err e

-- The templates that `ZABBIX_TEMPLATES` selects, by the API's `template.get`; `None` if the variable
-- is unset or empty.
pub template_ids : (List Text → List String) → Option Text → Option (List String)
template_ids template_get none = none
template_ids template_get (some []) = none
template_ids template_get (some (c ∷ names)) = some (template_get (split b',' (c ∷ names)))

-- `get_list`, over the API's `template.get` and `host.get`.
pub get_list :
    (List Text → List String)
    → (Option (List String) → List Host)
    → Option Text
    → Result (Dict String Entry)
unfolding add_hosts entries template_ids
get_list template_get host_get zabbix_templates = finish (
    add_hosts ((default_group, host_stub) ∷ []) none
      (host_get (template_ids template_get zabbix_templates)))

-- What `zabbix.ini` sets; `None` where it does not.
pub record Settings : Type 0 where
  pub server : Option String
  pub username : Option String
  pub password : Option String

pub record Options : Type 0 where
  pub host : Option String
  pub list : Bool

-- `os.path.exists`, the `[zabbix]` section of a file, and the script's own directory with its
-- `/zabbix.ini`.
pub record Files : Type 0 where
  pub exists : String → Bool
  pub section : String → Dict String String
  pub beside_script : String

pub read_settings : Files → Settings
read_settings files =
    let conf_path = if files.exists "./zabbix.ini" then "./zabbix.ini" else files.beside_script in
    let config = if files.exists conf_path then files.section conf_path else [] in
    record {
      server = get config "server";
      username = get config "username";
      password = get config "password";
    }

-- Python's truth of a string or `None`.
abbrev pub truthy : Option String → Bool
truthy none = false
truthy (some s) = not (s == "")

pub data Outcome : Type 0 where
  printed : Dict String Entry → Outcome
  exits : ℕ → Outcome
  raised : Error → Outcome

abbrev show : Result (Dict String Entry) → Outcome
show (ok data_) = printed data_
show (err e) = raised e

-- `__init__`, after the command line is read; `login` says whether the API accepts the login.
-- `get_host` answers an empty dictionary.
pub init : (Settings → Bool) → (Settings → Result (Dict String Entry)) → Files → Options → Outcome
init login listing files options =
    let settings = read_settings files in
    if truthy settings.server && truthy settings.username
    then if login settings
      then if truthy options.host
        then printed []
        else if options.list
        then show (listing settings)
        else exits 1
      else exits 1
    else exits 1
