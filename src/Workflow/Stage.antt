-- ===== src/Workflow/Stage.antt =====
-- backend/src/backend/domain/workflow/link_stage.py and native_stage.py. A stage is its text, as in
-- the columns of a task.
use automated_short_drama.Prelude.{
  ℕ, suc, String, ◌==◌, Bool, ◌||◌, Option, none, some, List, [], ◌∷◌, if◌then◌else◌, leb,
}
use automated_short_drama.Errors.{Result, ok, err, ◌>>=◌, value_error}

abbrev pub waiting_available_time : String
waiting_available_time = "WAITING_AVAILABLE_TIME"

abbrev pub link_extraction : String
link_extraction = "LINK_EXTRACTION"

abbrev pub delivery_drama : String
delivery_drama = "DELIVERY_DRAMA"

abbrev pub promotion_config : String
promotion_config = "PROMOTION_CONFIG"

abbrev pub link_ready : String
link_ready = "LINK_READY"

-- LinkStage.ORDER
abbrev link_order : List String
link_order =
    waiting_available_time ∷ link_extraction ∷ delivery_drama ∷ promotion_config ∷ link_ready ∷ []

abbrev next_index : Option ℕ → Option ℕ
next_index none = none
next_index (some i) = some (suc i)

-- `ORDER.index`, none where Python raises a ValueError.
unfoldable pub index : String → List String → Option ℕ
index s [] = none
index s (t ∷ ts) = let later = next_index (index s ts) in if t == s then some 0 else later

abbrev order_of : Option ℕ → Option ℕ → Result Bool
order_of none j = err value_error
order_of (some i) none = err value_error
order_of (some i) (some j) = ok (leb i j)

-- RunTarget.validate
unfoldable pub validate : String → Result String
validate target =
    if target == link_extraction || target == link_ready then ok target else err value_error

-- RunTarget.reaches
unfoldable reaches : String → String → Result Bool
reaches target stage =
    validate target >>= (λ valid. order_of (index stage link_order) (index target link_order))

-- NativeStage.ORDER
abbrev native_order : List String
native_order =
    waiting_available_time ∷ "DRAMA_READY" ∷ "PROMOTION_READY" ∷ "ALBUM_READY"
    ∷ "NATIVE_CONFIG_READY" ∷ "NATIVE_PREPARED" ∷ []

-- The stage behind the first one that is `current`.
unfoldable pub after : String → List String → Option String
after current [] = none
after current (s ∷ []) = none
after current (s ∷ t ∷ ts) =
    let later = after current (t ∷ ts) in if s == current then some t else later

-- NativeStage.next_stage
abbrev next_stage : String → Option String
next_stage current = after current native_order

-- NativeStage.is_terminal
abbrev pub is_terminal : String → Bool
is_terminal stage = stage == "NATIVE_PREPARED" || (stage == "MANUAL_REVIEW" || stage == "FAILED")
