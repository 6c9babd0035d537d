-- ===== src/AnsibleMitogen/Workers/Muxes/Inv.antt =====
-- mitogen-0.2.9/ansible_mitogen/process.py: what holds of the parent and its multiplexers at all times.
use mathlib.Core.Path.{subst}
use ansible_course.Base.{
  ℕ, suc, ◌+◌, Bool, true, false, List, [], ◌∷◌, ◌≡◌, ◌⊎◌, inl, inr, refl, sym, ap, ◌∙◌, arith,
}
use ansible_course.Base.Lists.{All, All-map, length}
use ansible_course.AnsibleMitogen.Workers.Muxes.{
  Mux, booting, listening, exited, crashed, lost, Phase, starting, awaiting, running, draining,
  reaping, ended, killed, System, system, Moves, this, another, IsGone, Step, fork, receive,
  initialised, announce, crash, lose, wake, shut_down, drain_byte, drain_end, reap, Reached,
  initial, then_step, then_die,
}

-- It listens, or it died since it listened.
abbrev pub HasListened : Mux → Type 0
HasListened m = (m ≡ listening) ⊎ (m ≡ lost)

-- It announced itself, and it may have ended since.
abbrev pub Announced : Mux → Type 0
Announced m = HasListened m ⊎ (m ≡ exited)

-- It ended, after it had listened.
abbrev pub HasEnded : Mux → Type 0
HasEnded m = (m ≡ exited) ⊎ (m ≡ lost)

-- The multiplexer that the parent waits for, with the bytes on their way.
abbrev pub Awaited : Mux → ℕ → Type 0
Awaited m sent = (HasListened m × (sent ≡ 1)) ⊎ (((m ≡ booting) ⊎ (m ≡ crashed)) × (sent ≡ 0))

abbrev pub Inv : ℕ → System → Type 0
Inv n (system (starting left) ms sent shut) =
    (length ms + left ≡ n) × All HasListened ms × (sent ≡ 0) × (shut ≡ false)
Inv n (system (awaiting left) [] sent shut) = ⊥
Inv n (system (awaiting left) (m ∷ ms) sent shut) =
    (suc (length ms) + left ≡ n) × All HasListened ms × Awaited m sent × (shut ≡ false)
Inv n (system running ms sent shut) =
    (length ms ≡ n) × All HasListened ms × (sent ≡ 0) × (shut ≡ false)
Inv n (system draining ms sent shut) =
    (length ms ≡ n) × All Announced ms × (sent ≡ 0) × (shut ≡ true)
Inv n (system reaping ms sent shut) = (length ms ≡ n) × All HasEnded ms
Inv n (system ended ms sent shut) = (length ms ≡ n) × All HasEnded ms
Inv n (system killed ms sent shut) = shut ≡ true

-- Where all are otherwise, none changes from `a`.
no_move :
    (P : Mux → Type 0) {a b : Mux} {ms ns : List Mux} → (P a → ⊥) → Moves a b ms ns → All P ms → ⊥
no_move P f this (h, hs) = f h
no_move P f (another mv) (h, hs) = no_move P f mv hs

-- One changes, and what holds of all still does.
moved :
    (P : Mux → Type 0) {a b : Mux} {ms ns : List Mux}
    → (P a → P b)
    → Moves a b ms ns
    → All P ms
    → All P ns
moved P f this (h, hs) = (f h, hs)
moved P f (another mv) (h, hs) = (h, moved P f mv hs)

same_length : {a b : Mux} {ms ns : List Mux} → Moves a b ms ns → length ns ≡ length ms
same_length this = refl
same_length (another mv) = ap suc (same_length mv)

gone_ended : (m : Mux) → IsGone m → Announced m → HasEnded m
gone_ended booting g a = ground arith
gone_ended listening g a = ground arith
gone_ended exited g a = inl refl
gone_ended crashed g a = ground arith
gone_ended lost g a = inr refl

each_gone : (ms : List Mux) → All IsGone ms → All Announced ms → All HasEnded ms
each_gone [] h a = tt
each_gone (m ∷ ms) (g, h) (a, rest) = (gone_ended m g a, each_gone ms h rest)

not_listened : {A : Type 0} → HasListened booting → A
not_listened (inl e) = cc
not_listened (inr e) = cc

not_announced : {A : Type 0} → Announced booting → A
not_announced (inl h) = not_listened h
not_announced (inr e) = cc

not_ended : {A : Type 0} → HasEnded booting → A
not_ended (inl e) = cc
not_ended (inr e) = cc

listening_goes_on : {A : Type 0} → HasEnded listening → A
listening_goes_on (inl e) = cc
listening_goes_on (inr e) = cc

boot_moves :
    (n : ℕ) (p : Phase) (b : Mux) (sent after : ℕ) (shut : Bool) {ms ns : List Mux}
    → ((m : Mux) → m ≡ booting → Awaited m sent → Awaited b after)
    → Moves booting b ms ns
    → Inv n (system p ms sent shut)
    → Inv n (system p ns after shut)
boot_moves n (starting left) b sent after shut f mv (_, h, _, _) =
    absurd (no_move HasListened not_listened mv h)
boot_moves n (awaiting left) b sent after shut f this (size, h, w, open_) =
    (size, h, f booting refl w, open_)
boot_moves n (awaiting left) b sent after shut f (another mv) (_, h, _, _) =
    absurd (no_move HasListened not_listened mv h)
boot_moves n running b sent after shut f mv (_, h, _, _) =
    absurd (no_move HasListened not_listened mv h)
boot_moves n draining b sent after shut f mv (_, h, _, _) =
    absurd (no_move Announced not_announced mv h)
boot_moves n reaping b sent after shut f mv (_, h) = absurd (no_move HasEnded not_ended mv h)
boot_moves n ended b sent after shut f mv (_, h) = absurd (no_move HasEnded not_ended mv h)
boot_moves n killed b sent after shut f mv h = h

wake_moves :
    (n : ℕ) (p : Phase) (sent : ℕ) {ms ns : List Mux}
    → Moves listening exited ms ns
    → Inv n (system p ms sent true)
    → Inv n (system p ns sent true)
wake_moves n (starting left) sent mv (_, _, _, e) = cc
wake_moves n (awaiting left) sent this (_, _, _, e) = cc
wake_moves n (awaiting left) sent (another mv) (_, _, _, e) = cc
wake_moves n running sent mv (_, _, _, e) = cc
wake_moves n draining sent mv (size, h, none_left, e) =
    (same_length mv ∙ size, moved Announced (λ _. inr refl) mv h, none_left, e)
wake_moves n reaping sent mv (_, h) = absurd (no_move HasEnded listening_goes_on mv h)
wake_moves n ended sent mv (_, h) = absurd (no_move HasEnded listening_goes_on mv h)
wake_moves n killed sent mv h = h

still_listened : HasListened listening → HasListened lost
still_listened _ = inr refl

lost_byte : (sent : ℕ) → Awaited listening sent → Awaited lost sent
lost_byte sent (inl (_, e)) = inl (inr refl, e)
lost_byte sent (inr (inl e, _)) = cc
lost_byte sent (inr (inr e, _)) = cc

lose_moves :
    (n : ℕ) (p : Phase) (sent : ℕ) (shut : Bool) {ms ns : List Mux}
    → Moves listening lost ms ns
    → Inv n (system p ms sent shut)
    → Inv n (system p ns sent shut)
lose_moves n (starting left) sent shut mv (size, h, e, open_) =
    (ap (λ k. k + left) (same_length mv) ∙ size, moved HasListened still_listened mv h, e, open_)
lose_moves n (awaiting left) sent shut this (size, h, w, open_) = (size, h, lost_byte sent w, open_)
lose_moves n (awaiting left) sent shut (another mv) (size, h, w, open_) = (
  ap (λ k. suc k + left) (same_length mv) ∙ size,
  moved HasListened still_listened mv h,
  w,
  open_,
)
lose_moves n running sent shut mv (size, h, e, open_) =
    (same_length mv ∙ size, moved HasListened still_listened mv h, e, open_)
lose_moves n draining sent shut mv (size, h, e, open_) =
    (same_length mv ∙ size, moved Announced (λ _. inl (inr refl)) mv h, e, open_)
lose_moves n reaping sent shut mv (_, h) = absurd (no_move HasEnded listening_goes_on mv h)
lose_moves n ended sent shut mv (_, h) = absurd (no_move HasEnded listening_goes_on mv h)
lose_moves n killed sent shut mv h = h

announced_byte : (sent : ℕ) (m : Mux) → m ≡ booting → Awaited m sent → Awaited listening (suc sent)
announced_byte sent m b (inl (inl e, _)) = cc
announced_byte sent m b (inl (inr e, _)) = cc
announced_byte sent m b (inr (_, e)) = inl (inl refl, ap suc e)

crashed_byte : (sent : ℕ) (m : Mux) → m ≡ booting → Awaited m sent → Awaited crashed sent
crashed_byte sent m b (inl (inl e, _)) = cc
crashed_byte sent m b (inl (inr e, _)) = cc
crashed_byte sent m b (inr (_, e)) = inr (inr refl, e)

step-Inv : (n : ℕ) {s t : System} → Step s t → Inv n s → Inv n t
step-Inv n fork (size, h, e, open_) = (omega (arith, size), h, inr (inl refl, e), open_)
step-Inv n (receive {ms = []}) h = elim h [ ]
step-Inv n (receive {ms = m ∷ ms}) (size, h, inl (e, one), open_) =
    (size, (e, h), omega (arith, one), open_)
step-Inv n (receive {ms = m ∷ ms}) (size, h, inr (_, e), open_) = absurd (omega (arith, e))
step-Inv n initialised (size, h, e, open_) = (omega (arith, size), h, e, open_)
step-Inv n (announce {p} {sent} mv) h =
    boot_moves n p listening sent (suc sent) false (announced_byte sent) mv h
step-Inv n (crash {p} {sent} {shut} mv) h =
    boot_moves n p crashed sent sent shut (crashed_byte sent) mv h
step-Inv n (lose {p} {sent} {shut} mv) h = lose_moves n p sent shut mv h
step-Inv n (wake {p} {sent} mv) h = wake_moves n p sent mv h
step-Inv n shut_down (size, h, e, open_) = (size, All-map _ _ (λ m l. inl l) _ h, e, refl)
step-Inv n drain_byte (_, _, e, _) = absurd (omega (arith, e))
step-Inv n (drain_end {ms} gone) (size, h, _, _) = (size, each_gone ms gone h)
step-Inv n (reap gone) h = h

pub Reached-Inv : (n : ℕ) {s : System} → Reached n s → Inv n s
Reached-Inv n (initial e) = subst (Inv n) (sym e) (omega arith, tt, refl, refl)
Reached-Inv n (then_step r st) = step-Inv n st (Reached-Inv n r)
Reached-Inv n (then_die {s = system p ms sent shut} r e) = subst (Inv n) (sym e) refl
