-- ===== src/InventoryScript/Tests.antt =====
-- get_inventory.py: a run for one host.
use ansible_course.Base.{false, some, ◌≡◌, refl, string_key}
use ansible_course.InventoryScript.{Args, empty_inventory, init}

abbrev ask_host : Args
ask_host = record { list = false; host = some "web" }

nothing_listed : init ask_host ≡ empty_inventory
unfolding init
nothing_listed = refl
