-- ===== src/Delivery/Flow.antt =====
-- backend/src/backend/application/services/delivery_flow_service.py and submit_guard.py. The
-- delivery system, the sheet and the clock are outside of the program: a state, and what each call
-- of them answers and leaves. Times are whole numbers of the ticks of one clock.
pub mod Ends
use automated_short_drama.Prelude.{
  ℕ, zero, suc, ◌+◌, ◌-◌, String, ◌==◌, Bool, true, false, ◌||◌, Option, none, some, List, [], ◌∷◌,
  if◌then◌else◌, ltb, nat_eq,
}
use Prim.Native.Nat.{min}
use automated_short_drama.Errors.{Result, ok, err, DomainError, validation, value_error}
use automated_short_drama.Plans.Form.{DeliveryFormSpec, CidFormRow}

pub record DramaAsset : Type 0 where
  pub delivery_drama_id : String
  pub drama_name : List ℕ
  pub link : List ℕ
  pub album_id : String

-- The key by which a completion is written: `str(task.sheet_row)`, or else the task's id.
pub data CompletionKey : Type 0 where
  sheet_row : ℕ → CompletionKey
  task : String → CompletionKey

-- DeliverySystemAdapter, FeishuAdapter.write_completion, time.monotonic and time.sleep.
pub record Platform (World : Type 0) : Type 0 where
  pub find_or_create_drama_asset : List ℕ → List ℕ → World → Result DramaAsset × World
  pub ensure_promotion_config :
      String → String → List ℕ → List ℕ → List ℕ → World → Result String × World
  pub submit_plan : DeliveryFormSpec → World → Result String × World
  pub find_task_by_idempotency_key : List ℕ → World → Result (Option String) × World
  pub poll_task_status : String → World → Result String × World
  pub write_completion : CompletionKey → World → Result {0} Unit × World
  pub now : World → ℕ
  pub sleep : ℕ → World → World

-- FINAL_SUBMIT_DISABLED and REAL_ADAPTERS_DISABLED.
pub data BlockReason : Type 0 where
  final_submit_disabled real_adapters_disabled : BlockReason

-- can_submit: the reason of a refusal.
unfoldable pub can_submit : Bool → Bool → Option BlockReason
can_submit false use_real_adapters = some final_submit_disabled
can_submit true false = some real_adapters_disabled
can_submit true true = none

-- What follows a call that may raise, with the state that it left.
infixl 5 ◌>>>◌
abbrev pub ◌>>>◌ {ℓ κ μ} :
    {Value : Type ℓ} {Next : Type κ} {State : Type μ}
    → Result Value × State
    → (Value → State → Result Next × State)
    → Result Next × State
(err e, s) >>> next = (err e, s)
(ok value, s) >>> next = next value s

-- The same in a loop on fuel.
infixl 5 ◌>>>?◌
abbrev pub ◌>>>?◌ {ℓ κ μ} :
    {Value : Type ℓ} {Next : Type κ} {State : Type μ}
    → Result Value × State
    → (Value → State → Option (Result Next) × State)
    → Option (Result Next) × State
(err e, s) >>>? next = (some (err e), s)
(ok value, s) >>>? next = next value s

infixl 5 ◌>>>??◌
abbrev pub ◌>>>??◌ {ℓ κ μ} :
    {Value : Type ℓ} {Next : Type κ} {State : Type μ}
    → Option (Result Value) × State
    → (Value → State → Option (Result Next) × State)
    → Option (Result Next) × State
(none, s) >>>?? next = (none, s)
(some (err e), s) >>>?? next = (some (err e), s)
(some (ok value), s) >>>?? next = next value s

module _ {World : Type 0} (platform : Platform World) where
  abbrev pub ensure_drama_asset : List ℕ → List ℕ → World → Result DramaAsset × World
  ensure_drama_asset drama_name link w = platform.find_or_create_drama_asset drama_name link w

  abbrev pub ensure_promotion_config :
      DramaAsset → String → List ℕ → List ℕ → World → Result String × World
  ensure_promotion_config asset link_type link platform_name w =
      platform.ensure_promotion_config asset.delivery_drama_id link_type link asset.drama_name
        platform_name w

  abbrev submit_rows :
      DeliveryFormSpec → List CidFormRow → List (List ℕ) → World → Result String × World
  submit_rows form [] materials w = (err validation, w)
  submit_rows form (r ∷ rows) [] w = (err validation, w)
  submit_rows form (r ∷ rows) (m ∷ materials) w = platform.submit_plan form w

  -- `submit_plan` of a form.
  abbrev pub submit_plan : DeliveryFormSpec → World → Result String × World
  submit_plan form w = submit_rows form form.cid_rows form.material_ids w

  -- The rounds of `for _ in range(max_polls)`, at an interval of zero seconds.
  unfoldable pub poll_times : ℕ → String → World → Result String × World
  poll_times zero id w = (ok "TIMEOUT", w)
  poll_times (suc n) id w = platform.poll_task_status id w >>> (λ status after.
      elim (status == "COMPLETED") [ true ↦ (ok status, after) | false ↦ poll_times n id after ])

  -- The heartbeats of one wait, of which `left` is to come. A loop without fuel ends in none.
  unfoldable pub wait_beating :
      ℕ → (World → Result {0} Unit × World) → ℕ → ℕ → World → Option (Result {0} Unit) × World
  wait_beating fuel on_wait heartbeat zero w = (some (ok tt), w)
  wait_beating zero on_wait heartbeat (suc n) w = (none, w)
  wait_beating (suc fuel) on_wait heartbeat (suc n) w = on_wait w >>>? (λ done after.
      let chunk = min heartbeat (suc n) in
      wait_beating fuel on_wait heartbeat (suc n - chunk) (platform.sleep chunk after))

  abbrev pub wait_for :
      Option (World → Result {0} Unit × World) → ℕ → ℕ → World → Option (Result {0} Unit) × World
  wait_for none heartbeat wait w = (some (ok tt), platform.sleep wait w)
  wait_for (some on_wait) heartbeat wait w = wait_beating wait on_wait heartbeat wait w

  module _ (on_wait : Option (World → Result {0} Unit × World)) (interval heartbeat : ℕ)
      (id : String) where
    -- `while now_fn() < deadline`
    unfoldable pub poll_until : ℕ → ℕ → World → Option (Result String) × World
    poll_until zero deadline w = elim (ltb (platform.now w) deadline) [
      | true ↦ (none, w)
      | false ↦ (some (ok "TIMEOUT"), w)
    ]
    poll_until (suc fuel) deadline w = elim (ltb (platform.now w) deadline) [
      | false ↦ (some (ok "TIMEOUT"), w)
      | true ↦ platform.poll_task_status id w >>>? (λ status after. elim (status == "COMPLETED") [
        | true ↦ (some (ok status), after)
        | false ↦ elim (ltb (platform.now after) deadline) [
          | false ↦ (some (ok "TIMEOUT"), after)
          | true ↦
              wait_for on_wait heartbeat (min interval (deadline - platform.now after)) after
              >>>?? (λ done later. poll_until fuel deadline later)
        ]
      ])
    ]

  -- `poll_until_completed` with an interval, and with `timeout` as the fuel.
  unfoldable pub poll_until_completed :
      Option (World → Result {0} Unit × World)
      → ℕ
      → ℕ
      → ℕ
      → String
      → World
      → Option (Result String) × World
  poll_until_completed on_wait interval heartbeat timeout id w =
      if nat_eq interval 0 || (nat_eq timeout 0 || nat_eq heartbeat 0)
      then (some (err value_error), w)
      else poll_until on_wait interval heartbeat id timeout (platform.now w + timeout) w
