-- ===== src/Resolve/Context.antt =====
-- `RuntimePackage::validate_context` and `validate_context_for_variable` of src/lint/runtime.rs, and the
-- checked entry points of src/resolve.rs behind the compilation of the package.
use rototo.Base.{
  Bool, true, false, not, List, [], ◌∷◌, ◌++◌, Option, none, some, ◌≡◌, ◌↔◌, ◌⊎◌, inl, inr, refl,
  arith, Bytes, Result, ok, err, ◌>>=◌, ok_or, Map, lookup, member, is_empty, if◌then◌else◌, Any,
  member-Any, Any-member, Bool-cases, Option-cases, Result-cases,
}
use rototo.Resolve.Engine.{Engine}
use rototo.Resolve.Runtime.{
  RototoError, variable_not_found, incompatible_context, no_candidate_context, RuntimePackage,
  RuntimeEvaluationContext, VariableResolution,
}
use rototo.Resolve.Evaluate.{Session}
use rototo.Resolve.State.{Stop, failed, resolve_variable_unchecked, resolve_variables_unchecked}

module _ (E : Engine) where
  open E use {Json, validate}

  abbrev Contexts : Type 0
  Contexts = Map (RuntimeEvaluationContext E)

  abbrev Checked : Type 0
  Checked = Result RototoError (Unit {0})

  -- `allowed.is_some_and(|allowed| !allowed.contains(id))`
  abbrev pub is_skipped : Option (List Bytes) → Bytes → Bool
  is_skipped none id = false
  is_skipped (some allowed) id = not (member allowed id)

  abbrev no_match : Bool → List (Bytes × Bytes) → Checked
  no_match false errors = err no_candidate_context
  no_match true errors = err (incompatible_context errors)

  -- The loop over the contexts, with the flag and the errors so far.
  unfoldable pub try_contexts :
      Json → Option (List Bytes) → Contexts → Bool → List (Bytes × Bytes) → Checked
  try_contexts context allowed [] saw_candidate errors = no_match saw_candidate errors
  try_contexts context allowed ((id, declared) ∷ contexts) saw_candidate errors =
      elim (is_skipped allowed id) [
        | true ↦ try_contexts context allowed contexts saw_candidate errors
        | false ↦ elim (validate declared.validator context) [
          | ok u ↦ ok tt
          | err e ↦ try_contexts context allowed contexts true (errors ++ (id, e) ∷ [])
        ]
      ]

  unfoldable pub validate_context_against : RuntimePackage E → Json → Option (List Bytes) → Checked
  validate_context_against runtime context allowed =
      if is_empty runtime.evaluation_contexts
      then ok tt
      else try_contexts context allowed runtime.evaluation_contexts false []

  unfoldable pub validate_context : RuntimePackage E → Json → Checked
  validate_context runtime context = validate_context_against runtime context none

  unfoldable pub validate_context_for_variable : RuntimePackage E → Bytes → Json → Checked
  validate_context_for_variable runtime variable context = do
    allowed ←
        ok_or (lookup runtime.variable_evaluation_contexts variable) (variable_not_found variable)
    if member runtime.context_dependent_variables variable
        then validate_context_against runtime context (some allowed)
        else ok tt

  abbrev after_check : {A : Type 0} → Checked → Result Stop A → Result Stop A
  after_check (ok u) next = next
  after_check (err e) next = err (failed e)

  -- `resolve_variable` and `resolve_variables`, of a compiled package
  unfoldable pub resolve_variable_checked : Session E → Bytes → Result Stop (VariableResolution E)
  resolve_variable_checked s id =
      after_check (validate_context_for_variable s.runtime id s.context)
        (resolve_variable_unchecked E s id)

  unfoldable pub resolve_variables_checked : Session E → Result Stop (List (VariableResolution E))
  resolve_variables_checked s =
      after_check (validate_context s.runtime s.context) (resolve_variables_unchecked E s)

  -- the id stands in the list, if there is one
  abbrev pub IsAllowed : Option (List Bytes) → Bytes → Type 0
  IsAllowed none id = Unit
  IsAllowed (some allowed) id = Any (λ a. a ≡ id) allowed

  is_skipped-IsAllowed :
      (allowed : Option (List Bytes)) (id : Bytes)
      → is_skipped allowed id ≡ false
      → IsAllowed allowed id
  is_skipped-IsAllowed none id h = tt
  is_skipped-IsAllowed (some allowed) id h = member-Any allowed id (ground arith)

  IsAllowed-is_skipped :
      (allowed : Option (List Bytes)) (id : Bytes)
      → IsAllowed allowed id
      → is_skipped allowed id ≡ false
  IsAllowed-is_skipped none id h = refl
  IsAllowed-is_skipped (some allowed) id h = ground (arith, Any-member allowed id h)

  -- The context is one that is allowed and whose schema accepts the value.
  abbrev pub Accepts : Json → Option (List Bytes) → Bytes × RuntimeEvaluationContext E → Type 0
  Accepts context allowed (id, declared) =
      IsAllowed allowed id × (validate declared.validator context ≡ ok tt)

  try_contexts-Any :
      (context : Json) (allowed : Option (List Bytes)) (contexts : Contexts) (saw : Bool)
      (errors : List (Bytes × Bytes))
      → try_contexts context allowed contexts saw errors ≡ ok tt
      → Any (Accepts context allowed) contexts
  unfolding try_contexts
  try_contexts-Any context allowed [] true errors h = absurd (cc)
  try_contexts-Any context allowed [] false errors h = absurd (cc)
  try_contexts-Any context allowed ((id, declared) ∷ contexts) saw errors h =
      elim (Bool-cases (is_skipped allowed id)) [
        | inl e ↦
            let rest : try_contexts context allowed contexts saw errors ≡ ok tt = ground arith in
            inr (try_contexts-Any context allowed contexts saw errors rest)
        | inr e ↦ elim (Result-cases (validate declared.validator context)) [
          | inl (u, f) ↦ inl (is_skipped-IsAllowed allowed id e, f)
          | inr (message, f) ↦
              let more = errors ++ (id, message) ∷ [] in
              let rest : try_contexts context allowed contexts true more ≡ ok tt = ground arith in
              inr (try_contexts-Any context allowed contexts true more rest)
        ]
      ]

  Any-try_contexts :
      (context : Json) (allowed : Option (List Bytes)) (contexts : Contexts) (saw : Bool)
      (errors : List (Bytes × Bytes))
      → Any (Accepts context allowed) contexts
      → try_contexts context allowed contexts saw errors ≡ ok tt
  unfolding try_contexts
  Any-try_contexts context allowed [] saw errors h = elim h [ ]
  Any-try_contexts context allowed ((id, declared) ∷ contexts) saw errors (inl (e, f)) =
      ground (arith, IsAllowed-is_skipped allowed id e)
  Any-try_contexts context allowed ((id, declared) ∷ contexts) saw errors (inr h) =
      elim (Bool-cases (is_skipped allowed id)) [
        | inl e ↦ ground (arith, Any-try_contexts context allowed contexts saw errors h)
        | inr e ↦ elim (Result-cases (validate declared.validator context)) [
          | inl (u, f) ↦ ground arith
          | inr (message, f) ↦ ground (
            arith,
            Any-try_contexts context allowed contexts true (errors ++ (id, message) ∷ []) h,
          )
        ]
      ]

  is_empty-nil : {A : Type 0} (xs : List A) → is_empty xs ≡ true → xs ≡ []
  is_empty-nil [] h = refl
  is_empty-nil (x ∷ xs) h = cc

  nil_not_empty : {A : Type 0} (xs : List A) → xs ≡ [] → is_empty xs ≡ false → ⊥
  nil_not_empty [] h e = cc
  nil_not_empty (x ∷ xs) h e = cc

  pub validate_context_against_iff :
      (runtime : RuntimePackage E) (context : Json) (allowed : Option (List Bytes))
      → (validate_context_against runtime context allowed ≡ ok tt) ↔ (
          (runtime.evaluation_contexts ≡ [])
          ⊎ Any (Accepts context allowed) runtime.evaluation_contexts)
  unfolding validate_context_against
  validate_context_against_iff runtime context allowed =
      let contexts = runtime.evaluation_contexts in
      (
        λ h. elim (Bool-cases (is_empty contexts)) [
          | inl e ↦ inl (is_empty-nil contexts e)
          | inr e ↦ inr (try_contexts-Any context allowed contexts false [] (ground arith))
        ],
        λ h. elim (Bool-cases (is_empty contexts)) [
          | inl e ↦ rw e refl
          | inr e ↦ elim h [
            | inl f ↦ absurd (nil_not_empty contexts f e)
            | inr any ↦ rw e (Any-try_contexts context allowed contexts false [] any)
          ]
        ],
      )

  -- a variable that does not read the context, or a context that one of its contexts accepts
  abbrev pub IsContextFor : RuntimePackage E → Bytes → Json → Type 0
  IsContextFor runtime variable context =
      (allowed : List Bytes) × (lookup runtime.variable_evaluation_contexts variable ≡ some allowed)
      × ((¬ Any (λ v. v ≡ variable) runtime.context_dependent_variables)
          ⊎ ((runtime.evaluation_contexts ≡ [])
              ⊎ Any (Accepts context (some allowed)) runtime.evaluation_contexts))

  for_variable-IsContextFor :
      (runtime : RuntimePackage E) (variable : Bytes) (context : Json)
      → validate_context_for_variable runtime variable context ≡ ok tt
      → IsContextFor runtime variable context
  unfolding validate_context_for_variable
  for_variable-IsContextFor runtime variable context h =
      elim (Option-cases (lookup runtime.variable_evaluation_contexts variable)) [
        | inl e ↦ absurd (ground arith)
        | inr (allowed, e) ↦
            elim (Bool-cases (member runtime.context_dependent_variables variable)) [
              | inl f ↦ (
                allowed,
                e,
                inr (
                    (validate_context_against_iff runtime context (some allowed)).0 (ground arith)),
              )
              | inr f ↦ (
                allowed,
                e,
                inl (λ any.
                    ground (arith, Any-member runtime.context_dependent_variables variable any)),
              )
            ]
      ]

  IsContextFor-for_variable :
      (runtime : RuntimePackage E) (variable : Bytes) (context : Json)
      → IsContextFor runtime variable context
      → validate_context_for_variable runtime variable context ≡ ok tt
  unfolding validate_context_for_variable
  IsContextFor-for_variable runtime variable context (allowed, e, inl f) =
      elim (Bool-cases (member runtime.context_dependent_variables variable)) [
        | inl g ↦ absurd (f (member-Any runtime.context_dependent_variables variable g))
        | inr g ↦ rw (e, g) refl
      ]
  IsContextFor-for_variable runtime variable context (allowed, e, inr g) =
      let checked = (validate_context_against_iff runtime context (some allowed)).1 g in
      elim (Bool-cases (member runtime.context_dependent_variables variable)) [
        | inl f ↦ rw (e, f) checked
        | inr f ↦ rw (e, f) refl
      ]

  -- Checked resolution gives a result exactly when unchecked resolution does and the variable has
  -- a list of contexts and either is not among the variables that depend on the context, or the
  -- package declares no contexts, or a declared context whose id stands in that list has a schema
  -- that accepts the value.
  pub resolve_variable_checked_iff :
      (s : Session E) (id : Bytes) (resolution : VariableResolution E)
      → (resolve_variable_checked s id ≡ ok resolution) ↔ (
          IsContextFor s.runtime id s.context × (resolve_variable_unchecked E s id ≡ ok resolution))
  unfolding resolve_variable_checked
  resolve_variable_checked_iff s id resolution = (
    λ h. elim (Result-cases (validate_context_for_variable s.runtime id s.context)) [
      | inl (u, e) ↦ (for_variable-IsContextFor s.runtime id s.context e, ground arith)
      | inr (message, e) ↦ absurd (ground arith)
    ],
    λ (c, h). rw (IsContextFor-for_variable s.runtime id s.context c) h,
  )
