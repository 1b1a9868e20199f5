-- ===== src/Coordinator/Profiled.antt =====
-- What `profile_fields` says of the served documents, in either profile.
use mt.Base.{
  ◌≡◌, ◌==◌, true, false, Option, none, some, ◌⊎◌, inl, inr, not-false, eq_iff, ◌≢◌, sym, ◌∙◌,
}
use mathlib.Core.Bool.{false≢true}
use mt.Json.{Items, Fields, Python, get}
use mt.Errors.Ensures.{
  Ensures, Ensures-ok, Ensures-if, Ensures-known, Ensures-bind, Ensures-want, Ensures-refuse_last,
}
use mt.Coordinator.Strict.{IsStrict, validate-IsStrict}
use mt.Coordinator.Signed.{SignedFields}
use mt.Coordinator.Round.{Profile, profile_fields, legacy_base_model, nonempty_list, lists_text}

-- Before the signed profile: the base model is one of the served arena's, where one is set.
abbrev pub AllowsBase : Profile → Fields → Type 0
AllowsBase p arena =
    (p.base_model ≡ "")
    ⊎ ((allowed : Items) × (nonempty_list (get "allowed_base_models" arena) ≡ some allowed)
        × (lists_text p.base_model allowed ≡ true))

pub profile_fields-present :
    (py : Python) (p : Profile) (payload config arena : Fields)
    → Ensures (λ o. p.strict_v030 ≡ true → o ≢ none) (profile_fields py p payload config arena)
unfolding profile_fields
profile_fields-present py p payload config arena =
    Ensures-if p.strict_v030 (λ s. Ensures-bind λ v _. Ensures-ok (λ _ e. cc))
      λ loose. Ensures-known λ o _ s. absurd (false≢true (sym loose ∙ s))

legacy_base_model-AllowsBase :
    (p : Profile) (arena : Fields) → Ensures (λ _. AllowsBase p arena) (legacy_base_model p arena)
unfolding legacy_base_model
legacy_base_model-AllowsBase p arena =
    Ensures-want _ _ _ λ allowed e. Ensures-refuse_last _ _ _ λ t. inr (allowed, e, not-false _ t)

module _ (py : Python) (p : Profile) (payload config arena : Fields) where
  -- The fields that the signed profile gives.
  abbrev pub StrictIn : Option SignedFields → Type 0
  StrictIn none = ⊥
  StrictIn (some v) = IsStrict py payload config p.track p.hardware_class p.base_model arena v

  -- What `profile_fields` says, by the profile.
  pub record IsProfiled (o : Option SignedFields) : Type 0 where
    pub strict : p.strict_v030 ≡ true → StrictIn o
    pub loose : p.strict_v030 ≡ false → AllowsBase p arena

  pub profile_fields-IsProfiled : Ensures IsProfiled (profile_fields py p payload config arena)
  unfolding profile_fields
  profile_fields-IsProfiled =
      Ensures-if p.strict_v030
        (λ s. Ensures-bind λ v e. Ensures-ok (record {
          strict = λ _.
              (validate-IsStrict py payload config p.track p.hardware_class p.base_model
                  arena).holds
                v e;
          loose = λ n. absurd (false≢true (sym n ∙ s));
        }))
        λ n.
          Ensures-if (p.base_model == "")
            (λ b. Ensures-ok (record {
              strict = λ s. absurd (false≢true (sym n ∙ s));
              loose = λ _. inl ((eq_iff _ _).0 b);
            }))
            λ _. Ensures-bind λ u e. Ensures-ok (record {
              strict = λ s. absurd (false≢true (sym n ∙ s));
              loose = λ _. (legacy_base_model-AllowsBase p arena).holds u e;
            })
