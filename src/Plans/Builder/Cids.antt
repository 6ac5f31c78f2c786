-- ===== src/Plans/Builder/Cids.antt =====
-- The CIDs of a plan that was built.
use mathlib.Core.Path.{subst}
use automated_short_drama.Prelude.{
  ℕ, String, ◌≡◌, refl, ap, ◌∙◌, Bool, true, false, not, ◌&&◌, ◌||◌, Option, none, some, List, [],
  ◌∷◌, ◌++◌, map, if◌then◌else◌, codes, select, any, any-append, arith, Bool-cases, inl, inr,
}
use automated_short_drama.Prelude.Chars.{chars_eq, chars_eq-eq, chars_eq_refl, member, distinct}
use automated_short_drama.Prelude.Chars.Blank.{is_blank}
use automated_short_drama.Prelude.Dicts.{has_key}
use automated_short_drama.Errors.{ok, >>=-eq-ok}
use automated_short_drama.Plans.Material.{calculate}
use automated_short_drama.Plans.Spec.{DatetimeLibrary, Config, PlanSpec}
use automated_short_drama.Plans.Builder.{
  Calendar, PlanRequest, dedupe, role_of, cid_of, cids_by_roles, is_iaa_role, iaa_cids,
  test_account, with_test, routed, account_cids_of, link_set_of, build_name, primary_plan_type,
  plan_with, build,
}

member-same :
    (c v : List ℕ) (keys : List (List ℕ)) → chars_eq c v ≡ true → member c keys ≡ member v keys
member-same c v keys e = ap (λ x. member x keys) (chars_eq-eq c v e)

member-dedupe :
    (c : List ℕ) (seen vs : List (List ℕ))
    → member c (dedupe seen vs) ≡ (member c vs && not (member c seen))
unfolding dedupe
member-dedupe c seen [] = refl
member-dedupe c seen (v ∷ vs) = elim (Bool-cases (member v seen)) [
  | inl t ↦ rw t (elim (Bool-cases (chars_eq c v)) [
    | inl e ↦ ground (arith, member-same c v seen e, member-dedupe c seen vs)
    | inr n ↦ ground (arith, member-dedupe c seen vs)
  ])
  | inr f ↦ rw f (elim (Bool-cases (chars_eq c v)) [
    | inl e ↦ ground (arith, member-same c v seen e, member-dedupe c (v ∷ seen) vs)
    | inr n ↦ ground (arith, member-dedupe c (v ∷ seen) vs)
  ])
]

distinct-dedupe : (seen vs : List (List ℕ)) → distinct (dedupe seen vs) ≡ true
unfolding dedupe distinct
distinct-dedupe seen [] = refl
distinct-dedupe seen (v ∷ vs) = elim (Bool-cases (member v seen)) [
  | inl t ↦ rw t (distinct-dedupe seen vs)
  | inr f ↦ rw f (
      ground (arith, chars_eq_refl v, member-dedupe v (v ∷ seen) vs, distinct-dedupe (v ∷ seen) vs))
]

module _ (lib : DatetimeLibrary) where
  -- An account with this CID, which is not blank, and with a role that fits.
  abbrev offers : (List ℕ → Bool) → List ℕ → Config → Bool
  offers fits cid a =
      (fits (role_of lib a) && not (is_blank (cid_of lib a))) && chars_eq cid (cid_of lib a)

  member-select :
      (fits : List ℕ → Bool) (cid : List ℕ) (accounts : List Config)
      → member cid (
          map
            (cid_of lib)
            (select (λ a. fits (role_of lib a) && not (is_blank (cid_of lib a))) accounts))
        ≡ any (offers fits cid) accounts
  member-select fits cid [] = refl
  member-select fits cid (a ∷ accounts) =
      elim (Bool-cases (fits (role_of lib a) && not (is_blank (cid_of lib a)))) [
        | inl t ↦
            rw t (ap (λ b. chars_eq cid (cid_of lib a) || b) (member-select fits cid accounts))
        | inr f ↦ rw f (member-select fits cid accounts)
      ]

  member-cids_by_roles :
      (fits : List ℕ → Bool) (cid : List ℕ) (accounts : List Config)
      → member cid (cids_by_roles lib fits accounts) ≡ any (offers fits cid) accounts
  unfolding cids_by_roles
  member-cids_by_roles fits cid accounts =
      member-dedupe cid [] (
        map (cid_of lib)
          (select (λ a. fits (role_of lib a) && not (is_blank (cid_of lib a))) accounts))
      ∙ ground (arith, member-select fits cid accounts)

  -- An account with this CID that serves one of the links.
  abbrev pub serves : List (String × List ℕ) → List ℕ → List Config → Bool
  serves link_set cid accounts =
      (has_key "IAA" link_set && any (offers is_iaa_role cid) accounts)
      || ((has_key "9.9" link_set && any (offers (λ s. chars_eq s (codes "B1-9.9")) cid) accounts)
          || (has_key "2.9" link_set
              && any (offers (λ s. chars_eq s (codes "B2-2.9")) cid) accounts))

  member-if :
      (has : Bool) (cid : List ℕ) (cids : List (List ℕ))
      → member cid (if not has then [] else cids) ≡ (has && member cid cids)
  member-if true cid cids = refl
  member-if false cid cids = refl

  -- The CID of the test account, where the plan has the link IAA and takes a test account.
  abbrev tests_with : Option Config → List ℕ → Bool
  tests_with none cid = false
  tests_with (some a) cid = not (is_blank (cid_of lib a)) && chars_eq cid (cid_of lib a)

  abbrev pub tests : Bool → List (String × List ℕ) → List ℕ → List Config → Bool
  tests include_test link_set cid accounts =
      include_test && (has_key "IAA" link_set && tests_with (test_account lib accounts) cid)

  member-with_test :
      (cid : List ℕ) (cids : List (List ℕ)) (o : Option Config)
      → member cid (with_test lib cids o) ≡ (member cid cids || tests_with o cid)
  member-with_test cid cids none = ground arith
  member-with_test cid cids (some a) = elim (Bool-cases (chars_eq cid (cid_of lib a))) [
    | inl e ↦ ground (
      arith,
      member-same cid (cid_of lib a) cids e,
      any-append (chars_eq cid) cids (cid_of lib a ∷ []),
    )
    | inr n ↦ ground (arith, any-append (chars_eq cid) cids (cid_of lib a ∷ []))
  ]

  member-iaa_cids :
      (cid : List ℕ) (accounts : List Config) (include_test : Bool)
      → member cid (iaa_cids lib accounts include_test) ≡ (
          any (offers is_iaa_role cid) accounts
          || (include_test && tests_with (test_account lib accounts) cid))
  member-iaa_cids cid accounts true = ground (
    arith,
    member-with_test cid (cids_by_roles lib is_iaa_role accounts) (test_account lib accounts),
    member-cids_by_roles is_iaa_role cid accounts,
  )
  member-iaa_cids cid accounts false = ground (arith, member-cids_by_roles is_iaa_role cid accounts)

  member-account_cids_of :
      (links : List (String × List ℕ)) (accounts : List Config) (include_test : Bool) (cid : List ℕ)
      → member cid (account_cids_of lib links accounts include_test)
        ≡ (serves links cid accounts || tests include_test links cid accounts)
  unfolding account_cids_of
  member-account_cids_of links accounts include_test cid =
      let iaa = routed lib links accounts include_test "IAA" in
      let nine = routed lib links accounts include_test "9.9" in
      let two = routed lib links accounts include_test "2.9" in
      let is_nine : List ℕ → Bool = λ s. chars_eq s (codes "B1-9.9") in
      let is_two : List ℕ → Bool = λ s. chars_eq s (codes "B2-2.9") in
      member-dedupe cid [] (iaa ++ (nine ++ two))
      ∙ ground (
        arith,
        any-append (chars_eq cid) iaa (nine ++ two),
        any-append (chars_eq cid) nine two,
        member-if (has_key "IAA" links) cid (iaa_cids lib accounts include_test),
        member-if (has_key "9.9" links) cid (cids_by_roles lib is_nine accounts),
        member-if (has_key "2.9" links) cid (cids_by_roles lib is_two accounts),
        member-iaa_cids cid accounts include_test,
        member-cids_by_roles is_nine cid accounts,
        member-cids_by_roles is_two cid accounts,
      )

  module _ (calendar : Calendar) (request : PlanRequest) (plan : PlanSpec) where
    -- A plan that was built, with a test account or without, has no CID twice. A CID is one of the
    -- plan's exactly if it is not empty and either an account has it with a role that serves one of
    -- the plan's links, B1, B4, B7 or BX the link IAA, B1-9.9 the link 9.9, and B2-2.9 the link 2.9,
    -- or a test account was asked for, the plan has the link IAA and the CID is the test account's.
    pub build-account_cids :
        (cid : List ℕ)
        → build lib calendar request ≡ ok plan
        → (distinct plan.account_cids ≡ true)
          × (member cid plan.account_cids ≡ (
              serves plan.link_set cid request.accounts
              || tests request.include_test plan.link_set cid request.accounts))
    unfolding build account_cids_of
    build-account_cids cid e =
        let m = >>=-eq-ok (calculate request.material_count request.material_ranges) _ e in
        let n =
          >>=-eq-ok
            (build_name calendar request.platform request.drama_name request.available_time
              request.now (primary_plan_type (link_set_of request.links) request.include_test))
            _ m.2 in
        let p : plan_with lib request m.0 n.0 ≡ plan = cc in
        subst
          (λ x.
            (distinct x.account_cids ≡ true)
            × (member cid x.account_cids ≡ (
                serves x.link_set cid request.accounts
                || tests request.include_test x.link_set cid request.accounts)))
          p
          (
            distinct-dedupe [] _,
            member-account_cids_of (link_set_of request.links) request.accounts request.include_test
                cid,
          )
