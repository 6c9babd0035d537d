-- ===== src/Zabbix/Groups.antt =====
-- zabbix/zabbix.py: what the loops of `get_list` do to the members of a group.
use mathlib.Core.List.{append-nil, append_assoc}
use text.Mathlib.TextEquality.{eq_iff}
use ansible_course.Base.{
  String, ◌≢◌, Option, none, some, List, [], ◌∷◌, ◌++◌, ◌==◌, ◌≡◌, refl, sym, arith, string_key,
  if◌then◌else◌, Option-cases, inl, inr,
}
use ansible_course.Base.Lists.{All}
use ansible_course.Base.Dict.{Dict, get, get-set_item}
use ansible_course.Zabbix.{
  Host, Interface, ok, default_group, hostname_after, append_host, add_groups, add_hosts,
}

-- The members of a group, empty where the group is not there.
abbrev pub or_empty : Option (List String) → List String
or_empty none = []
or_empty (some members) = members

abbrev pub read : Dict String (List String) → String → List String
read d g = or_empty (get d g)

-- How often a name is listed in a group by the groups of one host.
abbrev pub copies : List String → String → String → List String
copies [] g name = []
copies (k ∷ groups) g name = (if k == g then name ∷ [] else []) ++ copies groups g name

pub read-append_host :
    (d : Dict String (List String)) (name k g : String)
    → read (append_host d name k) g ≡ read d g ++ (if k == g then name ∷ [] else [])
unfolding append_host
read-append_host d name k g = elim (Option-cases (get d k)) [
  | inl e ↦ ground (arith, e, append-nil (read d g), eq_iff k g, get-set_item d k (name ∷ []) g)
  | inr (members, e) ↦
      ground
        (arith, e, append-nil (read d g), eq_iff k g, get-set_item d k (members ++ (name ∷ [])) g)
]

pub read-add_groups :
    (d : Dict String (List String)) (name : String) (groups : List String) (g : String)
    → read (add_groups d name groups) g ≡ read d g ++ copies groups g name
unfolding add_groups
read-add_groups d name [] g = sym (append-nil _)
read-add_groups d name (k ∷ groups) g =
    rw (read-add_groups (append_host d name k) name groups g, read-append_host d name k g)
      (append_assoc (read d g) _ _)

-- The name of a host whose first interface is an agent's: by DNS if it has one, else by address.
abbrev pub agent_name : List Interface → Option String
agent_name [] = none
agent_name (i ∷ _) = if i.kind == "1" then some (if i.dns == "" then i.ip else i.dns) else none

abbrev pub IsAgent : Host → Type 0
IsAgent h = agent_name h.interfaces ≢ none

pub hostname_after-eq :
    (hostname : Option String) (is : List Interface)
    → hostname_after hostname is ≡ (elim (agent_name is) [ none ↦ hostname | some n ↦ some n ])
unfolding hostname_after
hostname_after-eq hostname [] = refl
hostname_after-eq hostname (i ∷ is) = ground arith

pub hostname_after-agent :
    (hostname : Option String) (is : List Interface) {n : String}
    → agent_name is ≡ some n
    → hostname_after hostname is ≡ some n
hostname_after-agent hostname is e = ground (arith, hostname_after-eq hostname is)

-- The members that `group` gets from the hosts, each under its agent's name, in the API's order.
abbrev named : Option String → (String → List String) → List String
named none f = []
named (some n) f = f n

abbrev pub listing : List Host → String → List String
listing [] g = []
listing (h ∷ hs) g =
    named (agent_name h.interfaces)
      (λ n. (if default_group == g then n ∷ [] else []) ++ copies h.groups g n)
    ++ listing hs g

-- With agents only, the loop ends, and adds each host's name to its groups.
pub add_hosts-agents :
    (d : Dict String (List String)) (hostname : Option String) (hs : List Host)
    → All IsAgent hs
    → (d' : Dict String (List String)) × (add_hosts d hostname hs ≡ ok d')
      × ((g : String) → read d' g ≡ read d g ++ listing hs g)
unfolding add_hosts
add_hosts-agents d hostname [] a = (d, refl, λ g. sym (append-nil _))
add_hosts-agents d hostname (h ∷ hs) (a, as_) = elim (Option-cases (agent_name h.interfaces)) [
  | inl e ↦ absurd (a e)
  | inr (n, e) ↦
      let d1 = add_groups (append_host d n default_group) n h.groups in
      let (d', run, members) = add_hosts-agents d1 (some n) hs as_ in
      (
        d',
        rw (hostname_after-agent hostname h.interfaces e, add_hosts) run,
        λ g. rw (e, members g, read-add_groups, read-append_host) (simp append_assoc),
      )
]
