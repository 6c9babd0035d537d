-- ===== src/InventoryScript.antt =====
-- get_inventory.py: the example dynamic inventory script.
pub mod Laws
mod Tests
use ansible_course.Base.{
  Bool, true, false, Option, none, some, List, [], ◌∷◌, String, ◌==◌, string_key, if◌then◌else◌,
}

-- The JSON that the script prints.
mutual
  pub data Json : Type 0 where
    text : String → Json
    array : List String → Json
    object : Fields → Json

  pub data Fields : Type 0 where
    end : Fields
    field : String → Json → Fields → Fields

-- The parsed command line.
pub record Args : Type 0 where
  pub list : Bool
  pub host : Option String

-- `example_inventory`
pub example_inventory : Json
example_inventory = object (
    field "group"
      (object (
        field "hosts" (array ("172.17.0.3" ∷ [])) (
          field "vars"
            (object (
              field "ansible_ssh_user" (text "ubuntu")
                (field "ansible_ssh_private_key_file" (text "~/.ssh/id_rsa") end)))
            end)))
      (field "_meta"
        (object (
          field "hostvars"
            (object
              (field "51.255.211.168" (object (field "host_specific_var" (text "centos") end)) end))
            end))
        end))

-- `empty_inventory`
pub empty_inventory : Json
empty_inventory = object (field "_meta" (object (field "hostvars" (object end) end)) end)

-- Python's truth of the value of `--host`
abbrev pub truthy : Option String → Bool
truthy none = false
truthy (some s) = if s == "" then false else true

-- `__init__`: what is printed for the parsed command line
pub init : Args → Json
init args =
    if args.list
    then example_inventory
    else if truthy args.host
    then empty_inventory
    else empty_inventory
