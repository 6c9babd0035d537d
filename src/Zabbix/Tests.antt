-- ===== src/Zabbix/Tests.antt =====
-- zabbix/zabbix.py: runs on concrete hosts.
use ansible_course.Base.{
  string_key, true, false, String, Text, ◌≢◌, Option, none, some, List, [], ◌∷◌, ◌≡◌, refl, inl,
}
use ansible_course.Base.Dict.{Dict, get, set_item}
use ansible_course.Zabbix.{
  Host, Interface, ok, err, unbound_hostname, Entry, hosts, meta, add_groups, append_host,
  hostname_after, get_list, Files, Options, init, printed,
}
use ansible_course.Zabbix.Groups.{listing}
use ansible_course.Zabbix.Listing.{hosts_of, get_list-eq-listing}
use ansible_course.Zabbix.Script.{init-printed_iff}

abbrev agent : String → String → Interface
agent dns ip = record { kind = "1"; dns = dns; ip = ip }

abbrev snmp : Interface
snmp = record { kind = "2"; dns = ""; ip = "10.0.0.9" }

abbrev web : Host
web = record { interfaces = agent "web.lan" "10.0.0.1" ∷ []; groups = "linux" ∷ "front" ∷ [] }

abbrev db : Host
db = record { interfaces = agent "" "10.0.0.2" ∷ snmp ∷ []; groups = "linux" ∷ [] }

abbrev switch : Host
switch = record { interfaces = snmp ∷ agent "sw" "10.0.0.3" ∷ []; groups = "net" ∷ [] }

abbrev no_templates : List Text → List String
no_templates _ = []

abbrev two_hosts : Option (List String) → List Host
two_hosts _ = web ∷ db ∷ []

two_hosts_listed :
    get_list no_templates two_hosts none
    ≡ ok (
        ("group_all", hosts ("web.lan" ∷ "10.0.0.2" ∷ []))
        ∷ ("linux", hosts ("web.lan" ∷ "10.0.0.2" ∷ []))
        ∷ ("front", hosts ("web.lan" ∷ []))
        ∷ ("_meta", meta)
        ∷ [])
unfolding get_list add_groups append_host hostname_after get set_item
two_hosts_listed = refl

get_list-eq-listing_example :
    (d : Dict String Entry) × (get_list no_templates two_hosts none ≡ ok d)
    × ((g : String) → g ≢ "_meta" → hosts_of (get d g) ≡ listing (web ∷ db ∷ []) g)
    × (get d "_meta" ≡ some meta)
get_list-eq-listing_example =
    get_list-eq-listing no_templates two_hosts none ((λ e. cc), ((λ e. cc), tt))

abbrev files : Files
files = record {
  exists = λ _. true;
  section = λ _. ("server", "http://localhost/zabbix") ∷ ("username", "Admin") ∷ [];
  beside_script = "/zabbix.ini";
}

abbrev ask : Options
ask = record { host = some "web.lan"; list = true }

abbrev ask_nothing : Options
ask_nothing = record { host = none; list = false }

init-printed_iff_example : init (λ _. true) (λ _. err unbound_hostname) files ask ≡ printed []
unfolding get
init-printed_iff_example =
    (init-printed_iff (λ _. true) (λ _. err unbound_hostname) ask files []).1
      (refl, inl (refl, refl))
