-- ===== src/AnsibleMitogen/Workers/Muxes/Settled.antt =====
-- mitogen-0.2.9/ansible_mitogen/process.py: every run of the parent and its multiplexers comes to an end.
use ansible_course.Base.{
  ℕ, zero, suc, ◌+◌, ◌*◌, ◌≤◌, true, false, List, [], ◌∷◌, ◌≡◌, ◌⊎◌, inl, inr, refl, arith,
}
use ansible_course.Base.Lists.{All, All-map, length}
use ansible_course.AnsibleMitogen.Workers.Muxes.{
  Mux, booting, listening, exited, crashed, lost, Phase, starting, awaiting, running, draining,
  reaping, ended, killed, System, system, Moves, this, another, IsGone, Step, fork, receive,
  initialised, announce, crash, lose, wake, shut_down, drain_byte, drain_end, reap, Reached,
  then_step,
}
use ansible_course.AnsibleMitogen.Workers.Muxes.Inv.{
  HasListened, HasEnded, Awaited, Inv, Reached-Inv,
}

-- The work that is left bounds the number of steps.
abbrev pub mux_work : Mux → ℕ
mux_work booting = 2
mux_work listening = 1
mux_work exited = 0
mux_work crashed = 0
mux_work lost = 0

abbrev pub muxes_work : List Mux → ℕ
muxes_work [] = 0
muxes_work (m ∷ ms) = mux_work m + muxes_work ms

abbrev pub phase_work : Phase → ℕ
phase_work (starting left) = 5 * left + 4
phase_work (awaiting left) = 5 * left + 6
phase_work running = 3
phase_work draining = 2
phase_work reaping = 1
phase_work ended = 0
phase_work killed = 0

abbrev pub work : System → ℕ
work (system p ms sent shut) = phase_work p + muxes_work ms

Moves-work :
    {a b : Mux} {ms ns : List Mux}
    → Moves a b ms ns
    → muxes_work ns + mux_work a ≡ muxes_work ms + mux_work b
Moves-work this = omega arith
Moves-work (another mv) = omega (arith, Moves-work mv)

Step-work : {s t : System} → Step s t → suc (work t) ≤ work s
Step-work fork = omega arith
Step-work receive = omega arith
Step-work initialised = omega arith
Step-work (announce mv) = omega (arith, Moves-work mv)
Step-work (crash mv) = omega (arith, Moves-work mv)
Step-work (lose mv) = omega (arith, Moves-work mv)
Step-work (wake mv) = omega (arith, Moves-work mv)
Step-work shut_down = omega arith
Step-work drain_byte = omega arith
Step-work (drain_end gone) = omega arith
Step-work (reap gone) = omega arith

-- A number of steps, one after another.
pub data Steps : ℕ → System → System → Type 0 where
  stay : {s : System} → Steps zero s s
  go : {k : ℕ} {s t u : System} → Step s t → Steps k t u → Steps (suc k) s u

Steps-work : {k : ℕ} {s t : System} → Steps k s t → k + work t ≤ work s
Steps-work stay = omega arith
Steps-work (go st rest) = omega (arith, Step-work st, Steps-work rest)

steps-Reached : (n : ℕ) {k : ℕ} {s t : System} → Reached n s → Steps k s t → Reached n t
steps-Reached n r stay = r
steps-Reached n r (go st rest) = steps-Reached n (then_step r st) rest

-- Nothing is left to do: all multiplexers ended after the parent, all that there are ended after it died, or the
-- parent waits for one that crashed.
abbrev pub AtRest : ℕ → System → Type 0
AtRest n (system ended ms sent shut) = (length ms ≡ n) × All HasEnded ms
AtRest n (system killed ms sent shut) = All IsGone ms
AtRest n (system (awaiting left) (m ∷ ms) sent shut) = (m ≡ crashed) × (sent ≡ 0)
AtRest n (system (awaiting left) [] sent shut) = ⊥
AtRest n (system (starting left) ms sent shut) = ⊥
AtRest n (system running ms sent shut) = ⊥
AtRest n (system draining ms sent shut) = ⊥
AtRest n (system reaping ms sent shut) = ⊥

-- While it runs, the parent has all its multiplexers, and each listens or died after it had listened.
abbrev pub Serves : ℕ → System → Type 0
Serves n (system running ms sent shut) = (length ms ≡ n) × All HasListened ms
Serves n (system (starting left) ms sent shut) = (length ms + left ≡ n) × All HasListened ms
Serves n (system (awaiting left) ms sent shut) = Unit
Serves n (system draining ms sent shut) = Unit
Serves n (system reaping ms sent shut) = (length ms ≡ n) × All HasEnded ms
Serves n (system ended ms sent shut) = (length ms ≡ n) × All HasEnded ms
Serves n (system killed ms sent shut) = Unit

serves : (n : ℕ) (s : System) → Inv n s → Serves n s
serves n (system (starting left) ms sent shut) (size, h, _, _) = (size, h)
serves n (system (awaiting left) ms sent shut) h = tt
serves n (system running ms sent shut) (size, h, _, _) = (size, h)
serves n (system draining ms sent shut) h = tt
serves n (system reaping ms sent shut) h = h
serves n (system ended ms sent shut) h = h
serves n (system killed ms sent shut) h = tt

abbrev Left : List Mux → Type 0
Left ms = (ns : List Mux) × (Moves booting crashed ms ns ⊎ Moves listening exited ms ns)

one-Left : (ms : List Mux) → All IsGone ms ⊎ Left ms
one-Left [] = inl tt
one-Left (booting ∷ ms) = inr (crashed ∷ ms, inl this)
one-Left (listening ∷ ms) = inr (exited ∷ ms, inr this)
one-Left (exited ∷ ms) = elim (one-Left ms) [
  | inl h ↦ inl (inl refl, h)
  | inr (ns, inl mv) ↦ inr (exited ∷ ns, inl (another mv))
  | inr (ns, inr mv) ↦ inr (exited ∷ ns, inr (another mv))
]
one-Left (crashed ∷ ms) = elim (one-Left ms) [
  | inl h ↦ inl (inr (inl refl), h)
  | inr (ns, inl mv) ↦ inr (crashed ∷ ns, inl (another mv))
  | inr (ns, inr mv) ↦ inr (crashed ∷ ns, inr (another mv))
]
one-Left (lost ∷ ms) = elim (one-Left ms) [
  | inl h ↦ inl (inr (inr refl), h)
  | inr (ns, inl mv) ↦ inr (lost ∷ ns, inl (another mv))
  | inr (ns, inr mv) ↦ inr (lost ∷ ns, inr (another mv))
]

abbrev Next : ℕ → System → Type 0
Next n s = AtRest n s ⊎ ((t : System) × Step s t)

mux_ends :
    (p : Phase) (ms : List Mux) (sent : ℕ) → Left ms → (t : System) × Step (system p ms sent true) t
mux_ends p ms sent (ns, inl mv) = (system p ns sent true, crash mv)
mux_ends p ms sent (ns, inr mv) = (system p ns sent true, wake mv)

awaited :
    (n left : ℕ) (m : Mux) (ms : List Mux) (sent : ℕ)
    → Awaited m sent
    → Next n (system (awaiting left) (m ∷ ms) sent false)
awaited n left m ms zero (inl (e, one)) = absurd (omega (arith, one))
awaited n left m ms (suc sent) (inl (e, one)) = inr (_, receive)
awaited n left booting ms sent (inr (e, none_sent)) = inr (_, announce this)
awaited n left crashed ms sent (inr (e, none_sent)) = inl (refl, none_sent)
awaited n left listening ms sent (inr (inl e, none_sent)) = cc
awaited n left listening ms sent (inr (inr e, none_sent)) = cc
awaited n left lost ms sent (inr (inl e, none_sent)) = cc
awaited n left lost ms sent (inr (inr e, none_sent)) = cc
awaited n left exited ms sent (inr (inl e, none_sent)) = cc
awaited n left exited ms sent (inr (inr e, none_sent)) = cc

ended-IsGone : (m : Mux) → HasEnded m → IsGone m
ended-IsGone m (inl e) = inl e
ended-IsGone m (inr e) = inr (inr e)

next : (n : ℕ) (s : System) → Inv n s → Next n s
next n (system (starting zero) ms sent shut) h = inr (_, initialised)
next n (system (starting (suc left)) ms sent shut) h = inr (_, fork)
next n (system (awaiting left) [] sent shut) h = elim h [ ]
next n (system (awaiting left) (m ∷ ms) sent false) (_, _, w, _) = awaited n left m ms sent w
next n (system (awaiting left) (m ∷ ms) sent true) (_, _, _, e) = cc
next n (system running ms sent shut) h = inr (_, shut_down)
next n (system draining ms sent false) (_, _, _, e) = cc
next n (system draining ms (suc sent) true) h = inr (_, drain_byte)
next n (system draining ms zero true) h = elim (one-Left ms) [
  | inl gone ↦ inr (_, drain_end gone)
  | inr more ↦ inr (mux_ends draining ms zero more)
]
next n (system reaping ms sent shut) (_, h) = inr (_, reap (All-map _ _ ended-IsGone ms h))
next n (system ended ms sent shut) h = inl h
next n (system killed ms sent false) h = cc
next n (system killed ms sent true) h = elim (one-Left ms) [
  | inl gone ↦ inl gone
  | inr more ↦ inr (mux_ends killed ms sent more)
]

settle :
    (fuel n : ℕ) (s : System)
    → work s ≤ fuel
    → Reached n s
    → (t : System) × (k : ℕ) × Steps k s t × AtRest n t
settle zero n s h r = elim (next n s (Reached-Inv n r)) [
  | inl rest ↦ (s, 0, stay, rest)
  | inr (t, st) ↦ absurd (omega (arith, h, Step-work st))
]
settle (suc fuel) n s h r = elim (next n s (Reached-Inv n r)) [
  | inl rest ↦ (s, 0, stay, rest)
  | inr (t, st) ↦
      let (u, k, rest, still) = settle fuel n t (omega (arith, h, Step-work st)) (then_step r st) in
      (u, suc k, go st rest, still)
]

-- Whatever the parent of n multiplexers and they have come to, in any order of their steps, with crashes
-- before and after a multiplexer listens and the parent's death: while the parent runs, it has n
-- multiplexers, and each has announced itself and listens unless it died since; and behind its exit
-- handler all n have ended, each after it had listened. From there no run has more steps than there is
-- work left; and there is one to a rest, at which either the parent has waited for all n, or it died and
-- every multiplexer has ended, or it waits for a byte of one that crashed before it listened.
pub muxes-Settle :
    {n k : ℕ} {s t : System}
    → Reached n s
    → Steps k s t
    → Serves n t × (k ≤ work s) × ((u : System) × (j : ℕ) × Steps j t u × AtRest n u)
muxes-Settle {n} {k} {s} {t} r run =
    let r' = steps-Reached n r run in
    (
      serves n t (Reached-Inv n r'),
      omega (arith, Steps-work run),
      settle (work t) n t (omega arith) r',
    )
