-- ===== src/Validation/Detect/Laws.antt =====
-- What normalizing requirements keeps.
use run_forge.Common.{
  ◌≡◌, refl, sym, ap, ◌∙◌, Bool, true, not, ◌||◌, Option, none, some, List, [], ◌∷◌, ◌++◌, String,
  inl, inr, arith, map, filter, or_else, str_eq, str_eq_iff, Bool-cases, Option-cases, All,
}
use run_forge.Validation.{
  ValidationCapability, ValidationCommandRequirement, ValidationProfile, capability_text,
  same_capability, has_capability, unique,
}
use run_forge.Validation.Detect.{
  Known, KnownCommandDetector, ValidationRequirementInput, trim_text, detect, declared_for,
  requirement_of, undeclared, normalize_validation_requirements,
}

-- The capabilities of a text are those of every text that is equal to it.
same_to_same :
    (a b c : ValidationCapability)
    → same_capability a b ≡ true
    → same_capability c b ≡ same_capability c a
same_to_same a b c h =
    let (to, from) = str_eq_iff (capability_text a) (capability_text b) in
    ap (λ t. str_eq (capability_text c) t) (sym (to h))

filter-has_capability :
    (a c : ValidationCapability) (cs : List ValidationCapability)
    → same_capability c a || has_capability (filter (λ d. not (same_capability a d)) cs) c
      ≡ same_capability c a || has_capability cs c
filter-has_capability a c [] = refl
filter-has_capability a c (d ∷ cs) = elim (Bool-cases (same_capability a d)) [
  | inl e ↦ rw e (ground (arith, same_to_same a d c e, filter-has_capability a c cs))
  | inr e ↦ rw e (ground (arith, filter-has_capability a c cs))
]

-- Making a list unique keeps what is in it.
unique-has_capability :
    (c : ValidationCapability) (cs : List ValidationCapability)
    → has_capability (unique cs) c ≡ has_capability cs c
unique-has_capability c [] = refl
unique-has_capability c (a ∷ cs) =
    filter-has_capability a c (unique cs)
    ∙ ap (λ b. same_capability c a || b) (unique-has_capability c cs)

append-has_capability :
    (c : ValidationCapability) (xs ys : List ValidationCapability)
    → has_capability (xs ++ ys) c ≡ has_capability xs c || has_capability ys c
append-has_capability c [] ys = refl
append-has_capability c (x ∷ xs) ys = ground (arith, append-has_capability c xs ys)

implied : (a b : Bool) → not b || (a || b) ≡ true
implied a b = ground arith

implied_twice : (a b c : Bool) → not c || (a || (b || c)) ≡ true
implied_twice a b c = ground arith

-- What stands at the end of a list is in the unique list.
last_of_unique :
    (c : ValidationCapability) (xs ys : List ValidationCapability)
    → not (has_capability ys c) || has_capability (unique (xs ++ ys)) c ≡ true
last_of_unique c xs ys =
    rw (unique-has_capability c (xs ++ ys), append-has_capability c xs ys)
      (implied (has_capability xs c) (has_capability ys c))

middle_of_unique :
    (c : ValidationCapability) (xs ys zs : List ValidationCapability)
    → not (has_capability zs c) || has_capability (unique (xs ++ (ys ++ zs))) c ≡ true
middle_of_unique c xs ys zs =
    rw
      (
        unique-has_capability c (xs ++ (ys ++ zs)),
        append-has_capability c xs (ys ++ zs),
        append-has_capability c ys zs,
      )
      (implied_twice (has_capability xs c) (has_capability ys c) (has_capability zs c))

-- The requirement of a command has the command's name and the profile's capabilities.
requirement_of-keeps :
    (profile : ValidationProfile) (command : String) (declared : Option ValidationRequirementInput)
    (known : Option Known) (c : ValidationCapability)
    → ((requirement_of profile command declared known).command ≡ command)
      × (not (has_capability profile.additional_capabilities c)
            || has_capability
                (requirement_of profile command declared known).required_capabilities
                c
          ≡ true)
unfolding requirement_of
requirement_of-keeps profile command (some d) none c = (
  refl,
  middle_of_unique c (ValidationCapability.shell ∷ []) (or_else d.capabilities [])
      profile.additional_capabilities,
)
requirement_of-keeps profile command (some d) (some k) c = (
  refl,
  middle_of_unique c k.required_capabilities (or_else d.capabilities [])
      profile.additional_capabilities,
)
requirement_of-keeps profile command none (some k) c =
    (refl, last_of_unique c k.required_capabilities profile.additional_capabilities)
requirement_of-keeps profile command none none c =
    (refl, last_of_unique c [] profile.additional_capabilities)

abbrev each :
    List KnownCommandDetector
    → List ValidationRequirementInput
    → ValidationProfile
    → String
    → ValidationCommandRequirement
each detectors inputs profile raw =
    requirement_of profile (trim_text raw) (declared_for inputs (trim_text raw))
      (detect detectors (trim_text raw))

each-keeps :
    (detectors : List KnownCommandDetector) (inputs : List ValidationRequirementInput)
    (profile : ValidationProfile) (commands : List String) (c : ValidationCapability)
    → (map
          (λ r. ValidationCommandRequirement.command r)
          (map (each detectors inputs profile) commands)
        ≡ map trim_text commands)
      × All
          (λ r.
            not (has_capability profile.additional_capabilities c)
              || has_capability (ValidationCommandRequirement.required_capabilities r) c
            ≡ true)
          (map (each detectors inputs profile) commands)
each-keeps detectors inputs profile [] c = (refl, tt)
each-keeps detectors inputs profile (raw ∷ raws) c =
    let (names, all) = each-keeps detectors inputs profile raws c in
    let (name, one) =
      requirement_of-keeps profile (trim_text raw) (declared_for inputs (trim_text raw))
        (detect detectors (trim_text raw)) c in
    (rw (name, names) refl, (one, all))

abbrev unique_profile : ValidationProfile → ValidationProfile
unique_profile profile = record profile {
  additional_capabilities = unique profile.additional_capabilities;
}

-- Requirements are normalized only if every declared command is among the commands, and then there is
-- one for each command, in order and under its trimmed text, and each requires every capability that
-- the profile adds, whatever the detectors know and whatever is declared.
pub normalize_validation_requirements-keeps :
    (detectors : List KnownCommandDetector) (commands : List String)
    (inputs : List ValidationRequirementInput) (profile : ValidationProfile)
    (requirements : List ValidationCommandRequirement) (c : ValidationCapability)
    → normalize_validation_requirements detectors commands inputs profile ≡ inr requirements
    → (undeclared commands inputs ≡ none)
      × (map (λ r. ValidationCommandRequirement.command r) requirements ≡ map trim_text commands)
      × All
          (λ r.
            not (has_capability profile.additional_capabilities c)
              || has_capability (ValidationCommandRequirement.required_capabilities r) c
            ≡ true)
          requirements
unfolding normalize_validation_requirements
normalize_validation_requirements-keeps detectors commands inputs profile requirements c h =
    elim (Option-cases (undeclared commands inputs)) [
      | inr (command, e) ↦ absurd (cc (rw (e, normalize_validation_requirements) at h))
      | inl e ↦
          let same : map (each detectors inputs (unique_profile profile)) commands ≡ requirements =
            cc (rw (e, normalize_validation_requirements) at h) in
          let (names, all) = each-keeps detectors inputs (unique_profile profile) commands c in
          (
            e,
            rw (sym same) names,
            rw (sym same, sym (unique-has_capability c profile.additional_capabilities)) all,
          )
    ]
