-- ===== src/AnsibleMitogen/ModuleFinder/Scan/Tests.antt =====
-- mitogen-0.2.9/ansible_mitogen/module_finder.py: modules that import each other.
use mathlib.Core.Path.{subst}
use ansible_course.Base.{
  true, false, none, some, List, [], ◌∷◌, ◌==◌, ◌≡◌, ◌⊎◌, ◌↔◌, refl, sym, inl, inr, arith,
  string_key, if◌then◌else◌,
}
use ansible_course.Base.Lists.{contains}
use ansible_course.AnsibleMitogen.ModuleFinder.{
  py_source, pkg_directory, Module, top, within, FindModule, find, get_fullname, is_pkg, bits,
  dotted,
}
use ansible_course.AnsibleMitogen.ModuleFinder.Same.{module_key, same_module_iff}
use ansible_course.AnsibleMitogen.ModuleFinder.Scan.{
  Import, Resolved, imports_of, scan, loop, resolved, offer_all, offer, add_parents, add_new, visit,
  imported, scan_fromlist, with_each,
}
use ansible_course.AnsibleMitogen.ModuleFinder.Scan.Grows.{In, tops}
use ansible_course.AnsibleMitogen.ModuleFinder.Scan.Closed.{
  Among, Reached, first, onward, parent, scan-Closed,
}

abbrev disk : FindModule
disk name path =
    if name == "facts"
    then some ("/m/facts", pkg_directory)
    else if name == "timeout"
    then some ("/m/facts/timeout.py", py_source)
    else none

-- The module and `timeout` import `facts.timeout`.
abbrev code : Module → List Import
code m = (("os" ∷ [], []) ∷ (("ansible" ∷ "module_utils" ∷ "facts" ∷ [], "timeout" ∷ []) ∷ []))

abbrev found : List Resolved
found =
    ("ansible.module_utils.facts", "/m/facts/__init__.py", true)
    ∷ ("ansible.module_utils.facts.timeout", "/m/facts/timeout.py", false)
    ∷ []

abbrev facts : Module
facts = top "facts" "/m/facts/__init__.py" pkg_directory

abbrev timeout : Module
timeout = within facts "timeout" "/m/facts/timeout.py" py_source

abbrev no_order : List Resolved → List Resolved
no_order found = found

abbrev universe : List Module
universe = timeout ∷ facts ∷ []

imports_timeout : (k : Module) → imports_of disk ("/m" ∷ []) code k ≡ none ∷ some timeout ∷ []
unfolding imports_of scan_fromlist with_each imported find
imports_timeout k = refl

only_timeout : (n k : Module) → Among n (imports_of disk ("/m" ∷ []) code k) → timeout ≡ n
only_timeout n k a = elim (subst (Among n) (imports_timeout k) a) [
  | inl e ↦ ground (arith, e)
  | inr rest ↦ elim rest [ inl e ↦ ground (arith, e) | inr nothing ↦ elim nothing [ ] ]
]

its_package : (m n : Module) → (timeout ≡ m) ⊎ (facts ≡ m) → In n (tops m) → facts ≡ n
unfolding contains get_fullname bits dotted
its_package m n (inl e) h =
    let h : In n (tops timeout) = subst (λ k. In n (tops k)) (sym e) h in
    ground (arith, h, same_module_iff facts n)
its_package m n (inr e) h =
    let h : In n (tops facts) = subst (λ k. In n (tops k)) (sym e) h in ground (arith, h)

two :
    (m : Module)
    → Reached (imports_of disk ("/m" ∷ []) code) (top "ping" "/m/ping.py" py_source) m
    → (timeout ≡ m) ⊎ (facts ≡ m)
two n (first a) = inl (only_timeout n _ a)
two n (onward {m} r a) = inl (only_timeout n m a)
two n (parent {m} r e) = inr (its_package m n (two m r) e)

in_universe :
    (m : Module)
    → Reached (imports_of disk ("/m" ∷ []) code) (top "ping" "/m/ping.py" py_source) m
    → In m universe
unfolding contains
in_universe m r = elim (two m r) [
  | inl e ↦ ground (arith, e, same_module_iff timeout m)
  | inr e ↦ ground (arith, e, same_module_iff facts m)
]

scan-Closed_example :
    (seen : List Module) × (scan no_order disk code 3 "ping" "/m/ping.py" ("/m" ∷ [])
      ≡ some (resolved seen))
    × ((m : Module)
        → In m seen
          ↔ Reached (imports_of disk ("/m" ∷ []) code) (top "ping" "/m/ping.py" py_source) m)
unfolding scan
scan-Closed_example =
    scan-Closed no_order disk code "ping" "/m/ping.py" ("/m" ∷ []) universe 3 in_universe
      (omega arith)

found_both : scan no_order disk code 3 "ping" "/m/ping.py" ("/m" ∷ []) ≡ some found
unfolding scan loop imports_of scan_fromlist with_each imported find offer_all offer add_parents
    add_new visit contains resolved get_fullname is_pkg bits dotted
found_both = refl
