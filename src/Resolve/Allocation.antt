-- ===== src/Resolve/Allocation.antt =====
-- `resolve_allocation_trace` of src/resolve.rs: enrollment, bucket and arm.
use rototo.Base.{
  ℕ, ◌<◌, Bool, true, false, Option, none, some, ◌≡◌, ◌↔◌, ◌⊎◌, inl, inr, sym, ap, Bytes, Result,
  ok, err, lookup,
}
use rototo.Resolve.Engine.{Engine}
use rototo.Resolve.Plain.{answer}
use rototo.Resolve.Runtime.{
  RototoError, Expression, RuntimeArm, RuntimeAllocation, allocation_resolution,
  VariableResolutionTrace,
}
use rototo.Resolve.Ask.{Ask, give, ◌>>=◌, give_result}
use rototo.Resolve.Evaluate.{Session, evaluate_bool, evaluate_value}
use rototo.Resolve.Hash.{allocation_bucket}
use rototo.Resolve.Trace.{
  find_arm, not_enrolled, allocation_trace_of, assign_arm, is_enrolled, assign_if, assigned_trace,
  resolve_allocation_trace,
}
use rototo.Resolve.State.{trace_variable_unchecked}
use rototo.Resolve.Memo.{Answers}
use rototo.Resolve.Answers.{Answers-bind, bind-Answers, Answers-give, give-Answers}
use rototo.Resolve.Rules.{with_provenance, method-trace, trace-method}
use rototo.Resolve.Arms.{IsArmOf, find_arm-IsArmOf, IsArmOf-find_arm, bucket-lt}

module _ (E : Engine) (s : Session E) where
  open E use {Json}

  abbrev EligibilityIs : Option (Expression E) → Bool → Type 0
  EligibilityIs none value = value ≡ true
  EligibilityIs (some eligibility) value = Answers E s (evaluate_bool E s eligibility none) value

  -- An allocation that runs enrolls whom its gate lets in.
  abbrev pub EnrollmentIs : Bool → Option (Expression E) → Bool → Type 0
  EnrollmentIs false eligibility value = value ≡ false
  EnrollmentIs true eligibility value = EligibilityIs eligibility value

  -- the trace of an enrolled unit: its bucket on the line of the layer, and the arm of the bucket
  abbrev pub IsAssigned : Bytes → RuntimeAllocation E → VariableResolutionTrace E → Type 0
  IsAssigned id a t =
      (unit : Json) × (bucket : ℕ) × (arm : Option (RuntimeArm E)) × Answers E s
        (evaluate_value E s a.unit none) unit
      × (allocation_bucket E a.layer unit a.buckets ≡ ok bucket)
      × (bucket < a.buckets)
      × IsArmOf E a.arms bucket arm
      × (t ≡ assigned_trace E id a bucket arm)

  abbrev pub IsAllocated : Bytes → RuntimeAllocation E → VariableResolutionTrace E → Type 0
  IsAllocated id a t =
      (EnrollmentIs a.running a.eligibility false
        × (t ≡ allocation_trace_of E id a none (not_enrolled E a)))
      ⊎ (EnrollmentIs a.running a.eligibility true × IsAssigned id a t)

  pub give_result-eq-ok :
      {A : Type 0} (r : Result RototoError A) (a : A) → Answers E s (give_result r) a → r ≡ ok a
  unfolding answer
  give_result-eq-ok (ok b) a h = ap ok (Answers-give E s b a h)
  give_result-eq-ok (err e) a (n, h) = absurd (cc)

  is_enrolled-EnrollmentIs :
      (running : Bool) (eligibility : Option (Expression E)) (value : Bool)
      → Answers E s (is_enrolled E s running eligibility) value
      → EnrollmentIs running eligibility value
  is_enrolled-EnrollmentIs false eligibility value h = sym (Answers-give E s false value h)
  is_enrolled-EnrollmentIs true none value h = sym (Answers-give E s true value h)
  is_enrolled-EnrollmentIs true (some e) value h = h

  assign_arm-IsAssigned :
      (id : Bytes) (a : RuntimeAllocation E) (t : VariableResolutionTrace E)
      → Answers E s (assign_arm E s id a) t
      → IsAssigned id a t
  unfolding assign_arm
  assign_arm-IsAssigned id a t h =
      let give_trace : ℕ → Ask Json (VariableResolutionTrace E) =
        λ bucket. give (assigned_trace E id a bucket (find_arm E a.arms bucket)) in
      let (unit, evaluated, rest) =
        Answers-bind E s (evaluate_value E s a.unit none)
          (λ unit. give_result (allocation_bucket E a.layer unit a.buckets) >>= give_trace) t h in
      let (bucket, hashed, last) =
        Answers-bind E s (give_result (allocation_bucket E a.layer unit a.buckets)) give_trace t
          rest in
      let is_bucket =
        give_result-eq-ok (allocation_bucket E a.layer unit a.buckets) bucket hashed in
      (
        unit,
        bucket,
        find_arm E a.arms bucket,
        evaluated,
        is_bucket,
        bucket-lt E a.layer unit a.buckets bucket is_bucket,
        find_arm-IsArmOf E a.arms bucket,
        sym (Answers-give E s (assigned_trace E id a bucket (find_arm E a.arms bucket)) t last),
      )

  assign_if-IsAllocated :
      (id : Bytes) (a : RuntimeAllocation E) (enrolled : Bool) (t : VariableResolutionTrace E)
      → EnrollmentIs a.running a.eligibility enrolled
      → Answers E s (assign_if E s id a enrolled) t
      → IsAllocated id a t
  assign_if-IsAllocated id a false t g h =
      inl (g, sym (Answers-give E s (allocation_trace_of E id a none (not_enrolled E a)) t h))
  assign_if-IsAllocated id a true t g h = inr (g, assign_arm-IsAssigned id a t h)

  EnrollmentIs-is_enrolled :
      (running : Bool) (eligibility : Option (Expression E)) (value : Bool)
      → EnrollmentIs running eligibility value
      → Answers E s (is_enrolled E s running eligibility) value
  EnrollmentIs-is_enrolled false eligibility value h = rw h (give-Answers E s false)
  EnrollmentIs-is_enrolled true none value h = rw h (give-Answers E s true)
  EnrollmentIs-is_enrolled true (some e) value h = h

  IsAssigned-assign_arm :
      (id : Bytes) (a : RuntimeAllocation E) (t : VariableResolutionTrace E)
      → IsAssigned id a t
      → Answers E s (assign_arm E s id a) t
  unfolding assign_arm
  IsAssigned-assign_arm id a t (unit, bucket, arm, evaluated, is_bucket, lt, is_arm, same) =
      let give_trace : ℕ → Ask Json (VariableResolutionTrace E) =
        λ bucket. give (assigned_trace E id a bucket (find_arm E a.arms bucket)) in
      let found = IsArmOf-find_arm E a.arms bucket arm is_arm in
      let last : Answers E s (give_trace bucket) t =
        rw (same, found) (give-Answers E s (assigned_trace E id a bucket arm)) in
      bind-Answers E s (evaluate_value E s a.unit none)
        (λ unit. give_result (allocation_bucket E a.layer unit a.buckets) >>= give_trace) unit t
        evaluated
        (bind-Answers E s (give_result (allocation_bucket E a.layer unit a.buckets)) give_trace
          bucket t (rw is_bucket (give-Answers E s bucket)) last)

  IsAllocated-resolve :
      (id : Bytes) (a : RuntimeAllocation E) (t : VariableResolutionTrace E)
      → IsAllocated id a t
      → Answers E s (resolve_allocation_trace E s id a) t
  unfolding resolve_allocation_trace
  IsAllocated-resolve id a t (inl (g, same)) =
      let out = allocation_trace_of E id a none (not_enrolled E a) in
      rw same (
        bind-Answers E s (is_enrolled E s a.running a.eligibility) (assign_if E s id a) false out
          (EnrollmentIs-is_enrolled a.running a.eligibility false g) (give-Answers E s out))
  IsAllocated-resolve id a t (inr (g, h)) =
      bind-Answers E s (is_enrolled E s a.running a.eligibility) (assign_if E s id a) true t
        (EnrollmentIs-is_enrolled a.running a.eligibility true g) (IsAssigned-assign_arm id a t h)

  -- the trace by the enrollment and the arm
  pub allocation_arm_iff :
      (id : Bytes) (a : RuntimeAllocation E) (trace : VariableResolutionTrace E)
      → lookup s.runtime.variables id ≡ some (allocation_resolution a)
      → (trace_variable_unchecked E s id ≡ ok trace) ↔ (
          (t : VariableResolutionTrace E) × IsAllocated id a t × (trace ≡ with_provenance E s id t))
  unfolding resolve_allocation_trace
  allocation_arm_iff id a trace known = (
    λ h.
        let (t, method, same) = method-trace E s id (allocation_resolution a) trace known h in
        let (enrolled, tested, rest) =
          Answers-bind E s (is_enrolled E s a.running a.eligibility) (assign_if E s id a) t
            method in
        let enrollment = is_enrolled-EnrollmentIs a.running a.eligibility enrolled tested in
        (t, assign_if-IsAllocated id a enrolled t enrollment rest, same),
    λ (t, h, same).
        rw same
          (trace-method E s id (allocation_resolution a) t known (IsAllocated-resolve id a t h)),
  )
