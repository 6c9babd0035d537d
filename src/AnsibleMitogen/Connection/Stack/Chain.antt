-- ===== src/AnsibleMitogen/Connection/Stack/Chain.antt =====
-- mitogen-0.2.9/ansible_mitogen/connection.py: every chain of `mitogen_via=` hosts ends, in a cycle's
-- error or in the hops of its hosts.
use ansible_course.Base.{
  ℕ, zero, suc, ◌<◌, true, false, String, Option, some, List, [], ◌∷◌, ◌++◌, ◌≡◌, refl, ap, ◌∙◌,
  arith, string_key, Bool-cases, inl, inr,
}
use ansible_course.Base.Lists.{contains, length}
use ansible_course.Base.Dict.{get, is_some}
use ansible_course.AnsibleMitogen.Transport.{Spec}
use ansible_course.AnsibleMitogen.Connection.{
  Call, Error, Result, ok, err, and_then, Env, via_cycle,
}
use ansible_course.AnsibleMitogen.Connection.Stack.{
  Hosts, Behind, direct, through, behind, add_hops, with_hops, stack_from_spec, build_stack,
}
use ansible_course.AnsibleMitogen.Connection.Stack.Seen.{
  unseen, unseen-le, unseen-lt, behind-listed,
}

-- The hosts of a chain, the farthest from the target first: the first has no `mitogen_via`, and each
-- other's `mitogen_via` names the one before.
pub data Chain (env : Env) (hosts : Hosts) : Spec → List Spec → Type 0 where
  last : {spec : Spec} → behind env hosts spec ≡ direct → Chain env hosts spec (spec ∷ [])
  more :
      {spec via : Spec} {specs : List Spec}
      → behind env hosts spec ≡ through (ok via)
      → Chain env hosts via specs
      → Chain env hosts spec (specs ++ (spec ∷ []))

-- The hops of hosts, one after the other.
abbrev pub add_all : Env → List Spec → List Call → Result (List Call)
add_all env [] stack = ok stack
add_all env (s ∷ specs) stack = and_then (add_hops env s stack) (add_all env specs)

-- An answer that is there, and that has the hops of a chain's hosts if it is no error.
abbrev pub Answers : Env → Hosts → Spec → List Call → Option (Result (List Call)) → Type 0
Answers env hosts spec stack answer =
    (r : Result (List Call)) × (answer ≡ some r)
    × ((calls : List Call)
        → r ≡ ok calls
        → (specs : List Spec) × Chain env hosts spec specs × (add_all env specs stack ≡ ok calls))

and_then-ok : {A : Type 0} (r : Result A) → and_then r ok ≡ r
unfolding and_then
and_then-ok (ok a) = refl
and_then-ok (err e) = refl

add_all-last :
    (env : Env) (specs : List Spec) (s : Spec) (stack : List Call)
    → add_all env (specs ++ (s ∷ [])) stack ≡ and_then (add_all env specs stack) (add_hops env s)
unfolding and_then
add_all-last env [] s stack = and_then-ok (add_hops env s stack)
add_all-last env (t ∷ specs) s stack = go (add_hops env t stack) (add_all-last env specs s)
  where
    go :
        (r : Result (List Call))
        → ((calls : List Call)
            → add_all env (specs ++ (s ∷ [])) calls
              ≡ and_then (add_all env specs calls) (add_hops env s))
        → and_then r (add_all env (specs ++ (s ∷ [])))
          ≡ and_then (and_then r (add_all env specs)) (add_hops env s)
    go (ok calls) rest = rest calls
    go (err e) rest = refl

with_hops-Answers :
    (env : Env) (hosts : Hosts) (spec via : Spec) (stack : List Call)
    (answer : Option (Result (List Call)))
    → behind env hosts spec ≡ through (ok via)
    → Answers env hosts via stack answer
    → Answers env hosts spec stack (with_hops env spec answer)
unfolding and_then
with_hops-Answers env hosts spec via stack answer b (r, e, chain) = (
  and_then r (add_hops env spec),
  ap (with_hops env spec) e,
  λ calls ok_calls. go r chain ok_calls,
)
  where
    go :
        {calls : List Call} (r : Result (List Call))
        → ((calls : List Call)
            → r ≡ ok calls
            → (specs : List Spec) × Chain env hosts via specs
              × (add_all env specs stack ≡ ok calls))
        → and_then r (add_hops env spec) ≡ ok calls
        → (specs : List Spec) × Chain env hosts spec specs × (add_all env specs stack ≡ ok calls)
    go (err x) chain e = cc e
    go (ok before) chain e =
        let (specs, c, a) = chain before refl in
        (
          specs ++ (spec ∷ []),
          more b c,
          add_all-last env specs spec stack ∙ (ap (λ x. and_then x (add_hops env spec)) a ∙ e),
        )

alone-Answers :
    (env : Env) (hosts : Hosts) (spec : Spec) (stack : List Call)
    → behind env hosts spec ≡ direct
    → Answers env hosts spec stack (some (add_hops env spec stack))
alone-Answers env hosts spec stack b =
    (add_hops env spec stack, refl, λ calls e. (spec ∷ [], last b, and_then-ok _ ∙ e))

error-Answers :
    (env : Env) (hosts : Hosts) (spec : Spec) (stack : List Call) (e : Error)
    → Answers env hosts spec stack (some (err e))
error-Answers env hosts spec stack e = (err e, refl, λ calls same. cc same)

-- One round, from the answer for the host behind.
round-Answers :
    (env : Env) (hosts : Hosts) (fuel : ℕ) (spec : Spec) (stack : List Call) (seen : List String)
    → (contains seen spec.inventory_name ≡ false
        → (via : Spec) → behind env hosts spec ≡ through (ok via)
        → Answers env hosts via stack
            (stack_from_spec env hosts fuel via stack (seen ++ (spec.inventory_name ∷ []))))
    → Answers env hosts spec stack (stack_from_spec env hosts (suc fuel) spec stack seen)
unfolding stack_from_spec
round-Answers env hosts fuel spec stack seen rest =
    elim (Bool-cases (contains seen spec.inventory_name)) [
      | inl t ↦ rw t (error-Answers env hosts spec stack via_cycle)
      | inr f ↦ rw f (go (behind env hosts spec) refl (rest f))
    ]
  where
    go :
        (b : Behind)
        → behind env hosts spec ≡ b
        → ((via : Spec)
            → behind env hosts spec ≡ through (ok via)
            → Answers env hosts via stack
                (stack_from_spec env hosts fuel via stack (seen ++ (spec.inventory_name ∷ []))))
        → Answers env hosts spec stack (
            with_hops env spec (elim b [
              | direct ↦ some (ok stack)
              | through (err e) ↦ some (err e)
              | through (ok via) ↦
                  stack_from_spec env hosts fuel via stack (seen ++ (spec.inventory_name ∷ []))
            ]))
    go direct b rest = alone-Answers env hosts spec stack b
    go (through (err e)) b rest = error-Answers env hosts spec stack e
    go (through (ok via)) b rest = with_hops-Answers env hosts spec via stack _ b (rest via b)

stack_from_spec-Answers :
    (env : Env) (hosts : Hosts) (fuel : ℕ) (spec : Spec) (stack : List Call) (seen : List String)
    → is_some (get hosts spec.inventory_name) ≡ true
    → unseen hosts seen < fuel
    → Answers env hosts spec stack (stack_from_spec env hosts fuel spec stack seen)
stack_from_spec-Answers env hosts zero spec stack seen h l = absurd (omega (arith, l))
stack_from_spec-Answers env hosts (suc fuel) spec stack seen h l =
    round-Answers env hosts fuel spec stack seen λ f via b.
      stack_from_spec-Answers env hosts fuel via stack (seen ++ (spec.inventory_name ∷ []))
        (behind-listed env hosts spec via b)
        (omega (arith, unseen-lt hosts seen spec.inventory_name h f))

-- However the hosts' `mitogen_via` variables refer to each other, the rounds are enough and there is
-- an answer. If it is no error, it has the hops of the hosts of a chain, one host after the other,
-- that begins with a host that needs no other and ends with the target, each host the one that the
-- next one's `mitogen_via` names.
pub build_stack-Answers :
    (env : Env) (hosts : Hosts) (spec : Spec)
    → Answers env hosts spec [] (build_stack env hosts spec)
unfolding build_stack
build_stack-Answers env hosts spec =
    round-Answers env hosts (suc (length hosts)) spec [] [] λ f via b.
      stack_from_spec-Answers env hosts (suc (length hosts)) via [] (spec.inventory_name ∷ [])
        (behind-listed env hosts spec via b)
        (omega (arith, unseen-le hosts (spec.inventory_name ∷ [])))
