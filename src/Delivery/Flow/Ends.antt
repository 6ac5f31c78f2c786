-- ===== src/Delivery/Flow/Ends.antt =====
-- The loops of the polling end, by the fuel that they are given.
use automated_short_drama.Prelude.{
  ℕ, zero, suc, ◌+◌, ◌-◌, ◌≤◌, ◌<◌, ◌≡◌, ◌≢◌, refl, String, ◌==◌, Bool, true, false, ◌||◌, Option,
  none, some, ltb, nat_eq, arith, Bool-cases, inl, inr,
}
use Prim.Native.Nat.{min}
use automated_short_drama.Errors.{Result, ok, err}
use automated_short_drama.Delivery.Flow.{
  Platform, ◌>>>?◌, ◌>>>??◌, wait_beating, wait_for, poll_until, poll_until_completed,
}

abbrev is_ended {ℓ} : {A : Type ℓ} → Option A → Bool
is_ended none = false
is_ended (some a) = true

ended-ne : {A : Type 0} (o : Option A) → is_ended o ≡ true → o ≢ none
ended-ne none e k = cc
ended-ne (some a) e k = cc

module _ {World : Type 0} (platform : Platform World) where
  -- The wait ended, and if it did not raise then the clock is past its end.
  abbrev Waited : ℕ → Option (Result {0} Unit) × World → Type 0
  Waited end (none, w) = ⊥
  Waited end (some (err e), w) = Unit
  Waited end (some (ok done), w) = end ≤ platform.now w

  then-Waited :
      (end m : ℕ) (call : Result {0} Unit × World)
      (next : Unit → World → Option (Result {0} Unit) × World)
      → m ≤ platform.now (call.1)
      → ((done : Unit) (after : World) → m ≤ platform.now after → Waited end (next done after))
      → Waited end (call >>>? next)
  then-Waited end m (err e, after) next g h = tt
  then-Waited end m (ok done, after) next g h = h done after g

  then-ended :
      {Value : Type 0} (m : ℕ) (call : Result String × World)
      (next : String → World → Option (Result Value) × World)
      → m ≤ platform.now (call.1)
      → ((status : String) (after : World)
          → m ≤ platform.now after
          → is_ended (next status after).0 ≡ true)
      → is_ended (call >>>? next).0 ≡ true
  then-ended m (err e, after) next g h = refl
  then-ended m (ok status, after) next g h = h status after g

  Waited-ended :
      {Value : Type 0} (end : ℕ) (wait : Option (Result {0} Unit) × World)
      (next : Unit → World → Option (Result Value) × World)
      → Waited end wait
      → ((done : Unit) (after : World)
          → end ≤ platform.now after
          → is_ended (next done after).0 ≡ true)
      → is_ended (wait >>>?? next).0 ≡ true
  Waited-ended end (none, after) next g h = absurd g
  Waited-ended end (some (err e), after) next g h = refl
  Waited-ended end (some (ok done), after) next g h = h done after g

  either-ended :
      {Value : Type 0} (b : Bool) (x y : Option (Result Value) × World)
      → (b ≡ true → is_ended x.0 ≡ true)
      → (b ≡ false → is_ended y.0 ≡ true)
      → is_ended (elim b as (λ _. Option (Result Value) × World) [ true ↦ x | false ↦ y ]).0 ≡ true
  either-ended true x y f g = f refl
  either-ended false x y f g = g refl

  -- A heartbeat does not turn the clock back.
  abbrev Beats : Option (World → Result {0} Unit × World) → Type 0
  Beats none = Unit
  Beats (some on_wait) = (w : World) → platform.now w ≤ platform.now (on_wait w).1

  module _
      (sleep-now : (n : ℕ) (w : World)
        → platform.now w + n ≤ platform.now (platform.sleep n w)) where
    module _ (on_wait : World → Result {0} Unit × World)
        (on_wait-now : (w : World) → platform.now w ≤ platform.now (on_wait w).1) (heartbeat : ℕ)
        (beats : 0 < heartbeat) where
      wait_beating-Waited :
          (fuel left end : ℕ) (w : World)
          → left ≤ fuel
          → end ≤ platform.now w + left
          → Waited end (wait_beating platform fuel on_wait heartbeat left w)
      unfolding wait_beating
      wait_beating-Waited fuel zero end w f h = omega arith
      wait_beating-Waited zero (suc n) end w f h = absurd (omega arith)
      wait_beating-Waited (suc fuel) (suc n) end w f h =
          let chunk = min heartbeat (suc n) in
          then-Waited end (platform.now w) (on_wait w)
            (λ done after.
              wait_beating platform fuel on_wait heartbeat (suc n - chunk)
                (platform.sleep chunk after))
            (on_wait-now w)
            (λ done after g.
              let s = sleep-now chunk after in
              wait_beating-Waited fuel (suc n - chunk) end (platform.sleep chunk after)
                (omega arith) (omega arith))

    wait_for-Waited :
        (on_wait : Option (World → Result {0} Unit × World)) (heartbeat wait end : ℕ) (w : World)
        → Beats on_wait
        → 0 < heartbeat
        → end ≤ platform.now w + wait
        → Waited end (wait_for platform on_wait heartbeat wait w)
    wait_for-Waited none heartbeat wait end w b h g = let s = sleep-now wait w in omega arith
    wait_for-Waited (some on_wait) heartbeat wait end w b h g =
        wait_beating-Waited on_wait b heartbeat h wait wait end w (omega arith) g

    module _
        (poll-now : (id : String) (w : World)
          → platform.now w ≤ platform.now (platform.poll_task_status id w).1)
        (on_wait : Option (World → Result {0} Unit × World)) (beats : Beats on_wait)
        (interval heartbeat : ℕ) (rests : 0 < interval) (beating : 0 < heartbeat)
        (id : String) where
      poll_until-ended :
          (fuel deadline : ℕ) (w : World)
          → deadline ≤ platform.now w + fuel
          → is_ended (poll_until platform on_wait interval heartbeat id fuel deadline w).0 ≡ true
      unfolding poll_until
      poll_until-ended zero deadline w h =
          either-ended (ltb (platform.now w) deadline) (none, w) (some (ok "TIMEOUT"), w)
            (λ t. absurd (ground arith)) (λ f. refl)
      poll_until-ended (suc fuel) deadline w h =
          either-ended (ltb (platform.now w) deadline) _ (some (ok "TIMEOUT"), w)
            (λ t.
              then-ended (platform.now w) (platform.poll_task_status id w) _ (poll-now id w)
                (λ status after g.
                  either-ended (status == "COMPLETED") (some (ok status), after) _ (λ c. refl)
                    (λ c.
                      either-ended (ltb (platform.now after) deadline) _
                        (some (ok "TIMEOUT"), after)
                        (λ t'.
                          let wait = min interval (deadline - platform.now after) in
                          let end = platform.now after + wait in
                          Waited-ended end (wait_for platform on_wait heartbeat wait after)
                            (λ done later.
                              poll_until platform on_wait interval heartbeat id fuel deadline later)
                            (wait_for-Waited on_wait heartbeat wait end after beats beating
                              (omega arith))
                            (λ done later l. poll_until-ended fuel deadline later (ground arith)))
                        (λ f'. refl))))
            (λ f. refl)

  -- The polling ends within the fuel that it is given: in a status, in "TIMEOUT" or in an error,
  -- whatever the platform answers, provided that a sleep of some ticks lets at least those pass and
  -- that neither a poll nor a heartbeat turns the clock back.
  pub poll_until_completed-ends :
      (sleep-now : (n : ℕ) (w : World) → platform.now w + n ≤ platform.now (platform.sleep n w))
      (poll-now : (id : String) (w : World)
        → platform.now w ≤ platform.now (platform.poll_task_status id w).1)
      (on_wait : Option (World → Result {0} Unit × World))
      → Beats on_wait
      → (interval heartbeat timeout : ℕ) (id : String) (w : World)
      → (poll_until_completed platform on_wait interval heartbeat timeout id w).0 ≢ none
  unfolding poll_until_completed
  poll_until_completed-ends sleep-now poll-now on_wait beats interval heartbeat timeout id w =
      elim (Bool-cases (nat_eq interval 0 || (nat_eq timeout 0 || nat_eq heartbeat 0))) [
        | inl t ↦ rw t (λ k. cc)
        | inr f ↦ rw f (
            ended-ne _ (
              poll_until-ended sleep-now poll-now on_wait beats interval heartbeat (ground arith)
                (ground arith) id timeout (platform.now w + timeout) w (omega arith)))
      ]
