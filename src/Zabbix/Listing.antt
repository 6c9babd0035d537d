-- ===== src/Zabbix/Listing.antt =====
-- zabbix/zabbix.py: `get_list` against the listing that the hosts describe, and where it departs.
use text.Mathlib.TextEquality.{eq_iff}
use ansible_course.Base.{
  String, Text, ◌≢◌, Option, none, some, List, [], ◌∷◌, ◌++◌, ◌≡◌, refl, arith, string_key,
  Option-cases, inl, inr,
}
use ansible_course.Base.Lists.{All}
use ansible_course.Base.Dict.{Dict, get, set_item, get-set_item}
use ansible_course.Zabbix.{
  Host, Interface, ok, err, unbound_hostname, Entry, hosts, meta, default_group, host_stub,
  hostname_after, append_host, add_groups, add_hosts, entries, template_ids, get_list,
}
use ansible_course.Zabbix.Groups.{
  read, agent_name, IsAgent, listing, hostname_after-eq, add_hosts-agents,
}

-- The hosts of a group in the printed dictionary.
abbrev pub hosts_of : Option Entry → List String
hosts_of none = []
hosts_of (some (hosts members)) = members
hosts_of (some meta) = []

get-entries : (d : Dict String (List String)) (g : String) → hosts_of (get (entries d) g) ≡ read d g
unfolding entries get
get-entries [] g = refl
get-entries ((k, members) ∷ d) g = ground (arith, get-entries d g)

members_from_start :
    (d : Dict String (List String)) (hs : List Host) (g : String)
    → read d g ≡ read ((default_group, host_stub) ∷ []) g ++ listing hs g
    → read d g ≡ listing hs g
unfolding get
members_from_start d hs g e = ground (arith, e)

hostname_after-silent :
    (hostname : Option String) (is : List Interface)
    → ¬ (agent_name is ≢ none)
    → hostname_after hostname is ≡ hostname
hostname_after-silent hostname is n = elim (Option-cases (agent_name is)) [
  | inl e ↦ ground (arith, e, hostname_after-eq hostname is)
  | inr (name, e) ↦ absurd (n (λ e'. cc (e, e')))
]

module _ (template_get : List Text → List String) (host_get : Option (List String) → List Host)
    (env : Option Text) where
  abbrev pub fetched : List Host
  fetched = host_get (template_ids template_get env)

  -- If the first interface of every host that the API returns is an agent's, `get_list` succeeds.
  -- Then each group but `_meta` holds just the hosts that belong to it, in the API's order and once
  -- for each mention of the group, each by its DNS name or else its address, and `group_all` holds
  -- every host; `_meta` holds the host variables.
  pub get_list-eq-listing :
      All IsAgent fetched
      → (d : Dict String Entry) × (get_list template_get host_get env ≡ ok d)
        × ((g : String) → g ≢ "_meta" → hosts_of (get d g) ≡ listing fetched g)
        × (get d "_meta" ≡ some meta)
  unfolding get_list
  get_list-eq-listing a =
      let start : Dict String (List String) = (default_group, host_stub) ∷ [] in
      let (d, run, members) = add_hosts-agents start none fetched a in
      (
        set_item (entries d) "_meta" meta,
        rw run,
        λ g ne. ground (
          arith,
          get-set_item (entries d) "_meta" meta g,
          eq_iff "_meta" g,
          get-entries d g,
          members_from_start d fetched g (members g),
        ),
        rw get-set_item refl,
      )

  -- If the first host that the API returns has no interface, or one that is no agent's, `get_list`
  -- raises `UnboundLocalError`, whatever the hosts after it.
  pub get_list_unbound :
      (h : Host) (hs : List Host)
      → fetched ≡ h ∷ hs
      → ¬ (IsAgent h)
      → get_list template_get host_get env ≡ err unbound_hostname
  unfolding get_list add_hosts
  get_list_unbound h hs f n = rw (f, hostname_after-silent none h.interfaces n, add_hosts)

-- A host with no agent's interface in front is listed under the name of the host before it.
pub add_hosts_stale :
    (d : Dict String (List String)) (n : String) (h : Host) (hs : List Host)
    → ¬ (IsAgent h)
    → add_hosts d (some n) (h ∷ hs)
      ≡ add_hosts (add_groups (append_host d n default_group) n h.groups) (some n) hs
unfolding add_hosts
add_hosts_stale d n h hs a = rw (hostname_after-silent (some n) h.interfaces a, add_hosts)
