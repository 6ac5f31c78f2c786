-- ===== src/Accounts/Assignment/DryRun.antt =====
-- What a dry run of the assignment does to the sheet.
use mathlib.Core.Path.{subst}
use automated_short_drama.Prelude.{
  ℕ, String, ◌≡◌, refl, sym, Bool, true, false, Option, none, some, List, [], ◌∷◌, if◌then◌else◌,
}
use automated_short_drama.Prelude.Dicts.{lookup}
use automated_short_drama.Errors.{Result, ok, err}
use automated_short_drama.Delivery.Flow.{◌>>>◌}
use automated_short_drama.Accounts.Allocation.{AccountRow, BlockAllocation}
use automated_short_drama.Accounts.Blocks.{
  Account, AccountSheet, UsageRepository, AssignmentRequest, Planned, Planning, stopped, block,
  has_link, accounts_of,
}
use automated_short_drama.Accounts.Assignment.{
  checked_by, validated, previewed, appended_to, attempted, found, plan_kind, after_validation,
  commit, after_iap, plan_paid, after_iaa, used_today, assign,
}

Keeps->>> {ℓ κ} :
    {Value : Type ℓ} {Next : Type κ} {World : Type 0} (w : World) (r : Result Value × World)
    (next : Value → World → Result Next × World)
    → r.1 ≡ w
    → ((value : Value) → (next value w).1 ≡ w)
    → (r >>> next).1 ≡ w
Keeps->>> w (err e, v) next h k = h
Keeps->>> w (ok value, v) next h k = subst (λ x. (next value x).1 ≡ w) (sym h) (k value)

Keeps-if {ℓ} :
    {Value : Type ℓ} {World : Type 0} (w : World) (b : Bool) (r u : Result Value × World)
    → r.1 ≡ w
    → u.1 ≡ w
    → (if b then r else u).1 ≡ w
Keeps-if w true r u h k = h
Keeps-if w false r u h k = k

module _ {World : Type 0} (sheet : AccountSheet World) (request : AssignmentRequest World)
    (reads : (kind : String) (w : World) → (sheet.read_account_rows kind w).1 ≡ w)
    (validates : (validator : List Account → World → Result {0} Unit × World)
      → request.candidate_validator ≡ some validator
      → (accounts : List Account) (w : World) → (validator accounts w).1 ≡ w)
    (uses : (repo : UsageRepository World)
      → request.usage_repo ≡ some repo
      → (day : ℕ) (w : World) → (repo.used_cids day w).1 ≡ w)
    (is_dry : request.dry_run ≡ true) where
  validated-keeps :
      (accounts : List Account) (w : World) → (validated sheet request accounts w).1 ≡ w
  validated-keeps accounts w = by_validator request.candidate_validator refl
    where
      by_validator :
          (o : Option (List Account → World → Result {0} Unit × World))
          → request.candidate_validator ≡ o
          → (checked_by sheet request o accounts w).1 ≡ w
      by_validator none e = refl
      by_validator (some validator) e = validates validator e accounts w

  previewed-keeps :
      (kind : String) (required used : List String) (last_row : ℕ) (template : List AccountRow)
      (o : Option BlockAllocation) (w : World)
      → (previewed sheet request kind required used last_row template o w).1 ≡ w
  previewed-keeps kind required used last_row template none w = refl
  previewed-keeps kind required used last_row template (some p) w =
      Keeps->>> w (validated sheet request (accounts_of ((kind, p) ∷ []) request.include_test) w) _
        (validated-keeps _ w) (λ done. rw is_dry refl)

  appended_to-keeps :
      (kind : String) (required used : List String) (rows : List AccountRow)
      (o : Option (List AccountRow)) (w : World)
      → (appended_to sheet request kind required used rows o w).1 ≡ w
  appended_to-keeps kind required used rows none w = refl
  appended_to-keeps kind required used rows (some template) w =
      previewed-keeps kind required used _ template _ w

  attempted-keeps :
      (reserved : List String) (r : Result (Option BlockAllocation) × World) (w : World)
      → r.1 ≡ w
      → (attempted sheet request reserved r).1 ≡ w
  attempted-keeps reserved (err e, v) w h = h
  attempted-keeps reserved (ok none, v) w h = h
  attempted-keeps reserved (ok (some a), v) w h = h

  found-keeps :
      (kind : String) (required used reserved : List String) (rows : List AccountRow)
      (o : Option BlockAllocation) (w : World)
      → (found sheet request kind required used reserved rows o w).1 ≡ w
  found-keeps kind required used reserved rows (some a) w = refl
  found-keeps kind required used reserved rows none w =
      attempted-keeps reserved _ w (appended_to-keeps kind required used rows _ w)

  plan_kind-keeps :
      (kind : String) (required used reserved : List String) (w : World)
      → (plan_kind sheet request kind required used reserved w).1 ≡ w
  unfolding plan_kind
  plan_kind-keeps kind required used reserved w =
      Keeps->>> w (sheet.read_account_rows kind w) _ (reads kind w)
        (λ rows. found-keeps kind required used _ rows _ w)

  commit-keeps : (planned : Planned) (w : World) → (commit sheet request planned w).1 ≡ w
  commit-keeps [] w = refl
  commit-keeps (p ∷ planned) w = by_validation _ (validated-keeps _ w)
    where
      by_validation :
          (r : Result {0} Unit × World)
          → r.1 ≡ w
          → (after_validation sheet request
              (p ∷ planned)
              (accounts_of (p ∷ planned) request.include_test)
              r).1
            ≡ w
      by_validation (err e, v) h = h
      by_validation (ok done, v) h = rw is_dry h

  after_iap-keeps :
      (planned : Planned) (p : Planning) (w : World) → (after_iap sheet request planned p w).1 ≡ w
  after_iap-keeps planned (stopped status) w = refl
  after_iap-keeps planned (block a reserved) w = commit-keeps _ w

  plan_paid-keeps :
      (types : List String) (planned : Planned) (used reserved : List String) (w : World)
      → (plan_paid sheet request types planned used reserved w).1 ≡ w
  plan_paid-keeps [] planned used reserved w = commit-keeps planned w
  plan_paid-keeps (t ∷ types) planned used reserved w =
      Keeps->>> w (plan_kind sheet request "IAP" (t ∷ types) used reserved w) _
        (plan_kind-keeps "IAP" (t ∷ types) used reserved w) (λ p. after_iap-keeps planned p w)

  after_iaa-keeps :
      (used : List String) (p : Planning) (w : World) → (after_iaa sheet request used p w).1 ≡ w
  after_iaa-keeps used (stopped status) w = refl
  after_iaa-keeps used (block a reserved) w = plan_paid-keeps _ _ _ _ w

  used_today-keeps :
      (w : World) → (used_today sheet request request.usage_repo request.usage_day w).1 ≡ w
  used_today-keeps w = by_repo request.usage_repo request.usage_day refl
    where
      by_repo :
          (o : Option (UsageRepository World)) (day : Option ℕ)
          → request.usage_repo ≡ o
          → (used_today sheet request o day w).1 ≡ w
      by_repo none day e = refl
      by_repo (some repo) none e = refl
      by_repo (some repo) (some day) e =
          Keeps->>> w (repo.used_cids day w) _ (uses repo e day w) (λ cids. refl)

  -- If reading the sheet and the usages and validating accounts changes nothing outside, then a dry
  -- run of the assignment changes nothing outside, whatever links there are, and on errors too: no
  -- block is appended, and no name, test flag or usage is written.
  pub assign-dry_run : (w : World) → (assign sheet request w).1 ≡ w
  unfolding assign
  assign-dry_run w =
      Keeps->>> w (used_today sheet request request.usage_repo request.usage_day w) _
        (used_today-keeps w)
        (λ used.
          Keeps-if w (has_link (lookup "IAA" request.links)) _ _
            (Keeps->>> w (plan_kind sheet request "IAA" [] used used w) _
              (plan_kind-keeps "IAA" [] used used w) (λ p. after_iaa-keeps used p w))
            (plan_paid-keeps _ [] used used w))
