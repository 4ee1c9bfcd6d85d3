-- ===== src/Integration/Registry/Laws.antt =====
-- How long the set-up of a registry waits.
use mathlib.Core.Path.{subst}
use skopeo.Prelude.{◌≡◌, refl, sym, ap, ◌∙◌, ◌⊎◌, inl, inr, ℕ, zero, suc, Bool, []}
use skopeo.Prelude.Texts.{Text}
use skopeo.Go.{GoError, Result, ok, err, errorf, continue}
use skopeo.Go.Laws.{run_cases}
use skopeo.External.Lab.{Lab}
use skopeo.Integration.Registry.{
  TestRegistryV2, new_test_registry_v2_at, ping, or_again, ping_loop, or_fatal,
  setup_registry_v2_at,
}

module _ (L : Lab) where
  -- From world `w`, one of the first `n` pings succeeds, and leaves world `end`. Each one before it
  -- fails, and 100 milliseconds pass after it.
  pub data Answers (reg : TestRegistryV2 L) (end : L.World) : ℕ → L.World → Type 0 where
    up : {n : ℕ} {w : L.World} → ping L reg w ≡ (ok tt, end) → Answers reg end (suc n) w
    down :
        {n : ℕ} {w w' : L.World} (e : GoError)
        → ping L reg w ≡ (err e, w')
        → Answers reg end n (L.sleep 100 w')
        → Answers reg end (suc n) w

  -- One round, by its ping.
  round_up :
      (reg : TestRegistryV2 L) (n : ℕ) (last : Result (Unit {0})) (w w' : L.World)
      → ping L reg w ≡ (ok tt, w')
      → ping_loop L reg (suc n) last w ≡ (ok tt, w')
  unfolding ping_loop
  round_up reg n last w w' p =
      ap (λ r. or_again L r (λ e v. ping_loop L reg n (err e) (L.sleep 100 v))) p

  round_down :
      (reg : TestRegistryV2 L) (n : ℕ) (last : Result (Unit {0})) (e : GoError) (w w' : L.World)
      → ping L reg w ≡ (err e, w')
      → ping_loop L reg (suc n) last w ≡ ping_loop L reg n (err e) (L.sleep 100 w')
  unfolding ping_loop
  round_down reg n last e w w' p =
      ap (λ r. or_again L r (λ e v. ping_loop L reg n (err e) (L.sleep 100 v))) p

  -- From world `w`, all of `n` pings fail, with 100 milliseconds after each, which leaves world `end`.
  pub data Silent (reg : TestRegistryV2 L) (end : L.World) : ℕ → L.World → Type 0 where
    no_more : Silent reg end 0 end
    one_more :
        {n : ℕ} {w w' : L.World} (e : GoError)
        → ping L reg w ≡ (err e, w')
        → Silent reg end n (L.sleep 100 w')
        → Silent reg end (suc n) w

  -- How the loop ends, after a failed ping or before any.
  abbrev Ended : TestRegistryV2 L → ℕ → Result (Unit {0}) → L.World → Type 0
  Ended reg n last w =
      ((end : L.World) × Answers reg end n w × (ping_loop L reg n last w ≡ (ok tt, end)))
      ⊎ ((end : L.World) × (e : GoError) × Silent reg end n w
          × (ping_loop L reg n last w ≡ (err e, end)))

  loop-Ended :
      (reg : TestRegistryV2 L) (n : ℕ) (last : GoError) (w : L.World) → Ended reg n (err last) w
  unfolding ping_loop
  loop-Ended reg zero last w = inr (w, last, no_more, refl)
  loop-Ended reg (suc n) last w = elim (run_cases (ping L reg w)) [
    | inl (_, w', p) ↦ inl (w', up p, round_up reg n (err last) w w' p)
    | inr (e, w', p) ↦
        let step = round_down reg n (err last) e w w' p in
        elim (loop-Ended reg n e (L.sleep 100 w')) [
          | inl (end, a, h) ↦ inl (end, down e p a, step ∙ h)
          | inr (end, e', a, h) ↦ inr (end, e', one_more e p a, step ∙ h)
        ]
  ]

  set_up_of :
      (url : Text) (auth schema1 : Bool) (w started : L.World) (reg : TestRegistryV2 L)
      → new_test_registry_v2_at L url auth schema1 w ≡ (ok reg, started)
      → {r : Result (Unit {0}) × L.World} → ping_loop L reg 50 (err (errorf "" [])) started ≡ r
      → setup_registry_v2_at L url auth schema1 w ≡ or_fatal L reg r
  unfolding setup_registry_v2_at ping_loop
  set_up_of url auth schema1 w started reg p {r} h =
      ap (λ x. continue x (λ reg' v. or_fatal L reg' (ping_loop L reg' 50 (ok tt) v))) p
      ∙ ap (or_fatal L reg) h

  not_set_up :
      (url : Text) (auth schema1 : Bool) (w end : L.World) (e : GoError)
      → new_test_registry_v2_at L url auth schema1 w ≡ (err e, end)
      → setup_registry_v2_at L url auth schema1 w ≡ (err e, end)
  unfolding setup_registry_v2_at
  not_set_up url auth schema1 w end e p =
      ap (λ x. continue x (λ reg' v. or_fatal L reg' (ping_loop L reg' 50 (ok tt) v))) p

  -- The ways in which the set-up of a registry ends.
  pub data SetUp (url : Text) (auth schema1 : Bool) (w : L.World)
      : Result (TestRegistryV2 L) × L.World → Type 0 where
    no_start :
        {e : GoError} {end : L.World}
        → new_test_registry_v2_at L url auth schema1 w ≡ (err e, end)
        → SetUp url auth schema1 w (err e, end)
    answered :
        {reg : TestRegistryV2 L} {started end : L.World}
        → new_test_registry_v2_at L url auth schema1 w ≡ (ok reg, started)
        → Answers reg end 50 started
        → SetUp url auth schema1 w (ok reg, end)
    unanswered :
        {reg : TestRegistryV2 L} {started end : L.World} (e : GoError)
        → new_test_registry_v2_at L url auth schema1 w ≡ (ok reg, started)
        → Silent reg end 50 started
        → SetUp url auth schema1 w (err e, end)

  -- The set-up of a registry always returns, after at most 50 pings: with the error of the start,
  -- where that fails; with the registry, where one of 50 pings succeeds, which is the last one; and
  -- with an error, where all 50 fail. There are 100 milliseconds after each ping that fails.
  pub setup_registry_v2_at-SetUp :
      (url : Text) (auth schema1 : Bool) (w : L.World)
      → SetUp url auth schema1 w (setup_registry_v2_at L url auth schema1 w)
  setup_registry_v2_at-SetUp url auth schema1 w =
      elim (run_cases (new_test_registry_v2_at L url auth schema1 w)) [
        | inl (reg, started, p) ↦ elim (loop-Ended reg 50 (errorf "" []) started) [
          | inl (end, a, h) ↦
              subst Ends (sym (set_up_of url auth schema1 w started reg p h)) (answered p a)
          | inr (end, e, a, h) ↦
              subst Ends (sym (set_up_of url auth schema1 w started reg p h)) (unanswered _ p a)
        ]
        | inr (e, end, p) ↦ subst Ends (sym (not_set_up url auth schema1 w end e p)) (no_start p)
      ]
    where
      Ends : Result (TestRegistryV2 L) × L.World → Type 0
      Ends = SetUp url auth schema1 w
