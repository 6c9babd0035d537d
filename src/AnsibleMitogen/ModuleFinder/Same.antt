-- ===== src/AnsibleMitogen/ModuleFinder/Same.antt =====
-- mitogen-0.2.9/ansible_mitogen/module_finder.py: equality of `Module`s, which are named tuples.
use text.Mathlib.TextEquality.{eq_iff}
use ansible_course.Base.{Bool, true, false, ◌&&◌, ◌==◌, ◌≡◌, ◌↔◌, refl, arith, string_key, Key}
use ansible_course.AnsibleMitogen.ModuleFinder.{Kind, pkg_directory, py_source, Module, top, within}

abbrev same_kind : Kind → Kind → Bool
same_kind pkg_directory pkg_directory = true
same_kind pkg_directory py_source = false
same_kind py_source pkg_directory = false
same_kind py_source py_source = true

same_kind_iff : (a b : Kind) → (same_kind a b ≡ true) ↔ (a ≡ b)
same_kind_iff pkg_directory pkg_directory = (λ _. refl, λ _. refl)
same_kind_iff pkg_directory py_source = ground arith
same_kind_iff py_source pkg_directory = ground arith
same_kind_iff py_source py_source = (λ _. refl, λ _. refl)

abbrev pub same_module : Module → Module → Bool
same_module (top a b c) (top x y z) = (a == x) && ((b == y) && same_kind c z)
same_module (top a b c) (within p x y z) = false
same_module (within p a b c) (top x y z) = false
same_module (within p a b c) (within q x y z) =
    same_module p q && ((a == x) && ((b == y) && same_kind c z))

pub same_module_iff : (m n : Module) → (same_module m n ≡ true) ↔ (m ≡ n)
same_module_iff (top a b c) (top x y z) = ground (arith, eq_iff a x, eq_iff b y, same_kind_iff c z)
same_module_iff (top a b c) (within p x y z) = ground arith
same_module_iff (within p a b c) (top x y z) = ground arith
same_module_iff (within p a b c) (within q x y z) =
    ground (arith, same_module_iff p q, eq_iff a x, eq_iff b y, same_kind_iff c z)

instance abbrev pub module_key : Key Module
module_key = record { same = same_module; same_iff = same_module_iff }
