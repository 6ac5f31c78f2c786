-- ===== src/Acquisition/Fallback.antt =====
-- backend/src/backend/domain/acquisition/fallback_chain.py. A provider is what its `acquire` answers
-- for a task. The set of selected types is the list of them in the order of insertion.
pub mod Growth
pub mod Selection
pub mod Outcome
use automated_short_drama.Prelude.{
  String, Bool, true, false, not, ◌&&◌, ◌||◌, ◌==◌, Option, none, some, List, [], ◌∷◌, ◌++◌, map,
  if◌then◌else◌, any, is_some,
}
use automated_short_drama.Prelude.Dicts
use text.Mathlib.Text.{find?}
use automated_short_drama.Tasks.Task.{DramaTask}
use automated_short_drama.Acquisition.Asset.{
  PromotionAsset, AcquisitionResult, AcquisitionStatus, complete, partial, not_found,
}

pub record Provider : Type 0 where
  pub name_attr : Option String
  pub type_name : String
  pub acquire : DramaTask → AcquisitionResult

abbrev holds_text : String → String → Bool
holds_text part text = is_some (find? part text)

-- `_provider_name`: the attribute, or else a label by the name of the class.
unfoldable pub type_label : String → String
type_label t =
    if holds_text "Api" t || holds_text "API" t
    then "API"
    else if holds_text "Network" t
    then "NETWORK"
    else if holds_text "Dom" t || (holds_text "DOM" t || holds_text "Legacy" t)
    then "DOM"
    else if holds_text "Manual" t
    then "MANUAL"
    else t

unfoldable pub name_or_label : Option String → String → String
name_or_label none t = type_label t
name_or_label (some n) t = if n == "" then type_label t else n

abbrev pub provider_name : Provider → String
provider_name p = name_or_label p.name_attr p.type_name

-- `text in set`
abbrev pub holds : String → List String → Bool
holds t ts = any (λ s. s == t) ts

-- The variables of the loop.
pub record Chain : Type 0 where
  pub selected : List PromotionAsset
  pub selected_types : List String
  pub candidates : List PromotionAsset
  pub missing : List (String × String)
  pub warnings : List String
  pub providers_tried : List String
  pub final_provider : Option String

abbrev pub start : Chain
start = record {
  selected = [];
  selected_types = [];
  candidates = [];
  missing = [];
  warnings = [];
  providers_tried = [];
  final_provider = none;
}

-- One turn of each inner loop, and the loops.
unfoldable pub add_candidate : PromotionAsset → Chain → Chain
add_candidate a c =
    if holds a.link_type c.selected_types
    then c
    else record c { candidates = c.candidates ++ a ∷ [] }

unfoldable pub add_candidates : List PromotionAsset → Chain → Chain
add_candidates [] c = c
add_candidates (a ∷ more) c = add_candidates more (add_candidate a c)

unfoldable pub select_asset : String → PromotionAsset → Chain → Chain
select_asset name a c = if holds a.link_type c.selected_types then c else record c {
  selected = c.selected ++ a ∷ [];
  selected_types = c.selected_types ++ a.link_type ∷ [];
  final_provider = some name;
}

unfoldable pub add_selected : String → List PromotionAsset → Chain → Chain
add_selected name [] c = c
add_selected name (a ∷ more) c = add_selected name more (select_asset name a c)

unfoldable pub note_missing : String → String → Chain → Chain
note_missing lt reason c =
    if not (holds lt c.selected_types) && not (Dicts.has_key lt c.missing)
    then record c { missing = Dicts.put lt reason c.missing }
    else c

unfoldable pub add_missing : List (String × String) → Chain → Chain
add_missing [] c = c
add_missing ((lt, reason) ∷ more) c = add_missing more (note_missing lt reason c)

-- The body of the loop.
unfoldable pub visit : DramaTask → Provider → Chain → Chain
visit task p c =
    let name = provider_name p in
    let result = p.acquire task in
    let c1 = record c { providers_tried = c.providers_tried ++ name ∷ [] } in
    let c2 = add_selected name result.selected (add_candidates result.candidates c1) in
    let c3 = add_missing result.missing c2 in
    record c3 { warnings = c3.warnings ++ result.warnings }

abbrev pub is_complete : AcquisitionStatus → Bool
is_complete complete = true
is_complete _ = false

abbrev pub has_all_types : List String → Bool
has_all_types ts = holds "IAA" ts && (holds "2.9" ts && holds "9.9" ts)

-- The two tests behind which the loop breaks.
abbrev pub is_done : DramaTask → Provider → Chain → Bool
is_done task p c = is_complete (p.acquire task).status || has_all_types c.selected_types

unfoldable pub run_chain : DramaTask → List Provider → Chain → Chain
run_chain task [] c = c
run_chain task (p ∷ ps) c =
    let c' = visit task p c in
    let rest = run_chain task ps c' in if is_done task p c' then c' else rest

abbrev pub is_empty {ℓ} : {A : Type ℓ} → List A → Bool
is_empty [] = true
is_empty (x ∷ xs) = false

abbrev pub chain_status : Chain → AcquisitionStatus
chain_status c =
    if is_empty c.selected && is_empty c.missing
    then not_found
    else if not (is_empty c.missing)
    then partial
    else complete

abbrev nothing_found : AcquisitionResult
nothing_found = record {
  status = not_found;
  expected_types = [];
  candidates = [];
  selected = [];
  missing = [];
  warnings = [];
}

abbrev chain_result : Chain → AcquisitionResult
chain_result c = record {
  status = chain_status c;
  expected_types = c.selected_types ++ Dicts.keys c.missing;
  candidates = c.candidates;
  selected = c.selected;
  missing = c.missing;
  warnings = c.warnings;
}

unfoldable pub acquire : List Provider → DramaTask → AcquisitionResult
acquire [] task = nothing_found
acquire (p ∷ ps) task = chain_result (run_chain task (p ∷ ps) start)
