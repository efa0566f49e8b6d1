-- ===== src/Webhook/Laws.antt =====
-- The defaults settle in one pass and agree with the controller's, names are short enough, and the
-- provider of the infrastructure cannot change.
use cluster_api_control_plan.Base.{
  ok_inj, ℕ, pos, ◌≤◌, ◌<◌, ◌≡◌, ◌↔◌, true, false, Option, none, some, List, [], ◌∷◌, ◌++◌, String,
  length, deref, ltb, ◌*◌, if◌then◌else◌, str_eq, inl, inr, Bool-cases, arith, refl, eq_iff, Result,
  ok, err,
}
use cluster_api_control_plan.Objects.{
  second, ObjectRef, RemediationSpec, StrategyType, unset, rolling, on_delete, other_strategy,
  RollingUpdate, RolloutStrategy,
}
use cluster_api_control_plan.Remediation.Limits.{
  default_max_retry, default_retry_period_seconds, default_min_healthy_period_seconds,
  remediation_limits_for,
}
use cluster_api_control_plan.Webhook.Naming.{
  Execute, random_length, max_name_length, max_generated_name_length, take, trimmed,
  render_machine_name, generate_machine_name, template_of, length-trimmed,
}
use cluster_api_control_plan.Webhook.{
  Spec, or_default, default_surge, default_type, default_strategy_of, starts_with_v,
  default_version, default_rollout_strategy, default_remediation, default_spec, FieldError,
  forbidden, Rules, validate, validate_update, validate_infrastructure_ref_immutable,
}

or_default_idem :
    {A : Type 0} (d : A) (o : Option A) → or_default d (or_default d o) ≡ or_default d o
or_default_idem d none = refl
or_default_idem d (some a) = refl

default_surge_idem :
    (u : Option RollingUpdate) → default_surge (some (default_surge u)) ≡ default_surge u
default_surge_idem none = refl
default_surge_idem (some r) = λ i. record { max_surge = or_default_idem (pos 1) r.max_surge i }

default_type_idem :
    (k : StrategyType) (u : Option RollingUpdate)
    → default_strategy_of (some (default_type k u)) ≡ default_type k u
default_type_idem unset u =
    λ i. record { kind = rolling; rolling_update = some (default_surge_idem u i) }
default_type_idem rolling u =
    λ i. record { kind = rolling; rolling_update = some (default_surge_idem u i) }
default_type_idem on_delete u = refl
default_type_idem other_strategy u = refl

default_strategy_idem :
    (s : Option RolloutStrategy)
    → default_strategy_of (some (default_strategy_of s)) ≡ default_strategy_of s
default_strategy_idem none = refl
default_strategy_idem (some s) = default_type_idem s.kind s.rolling_update

default_version_idem : (v : String) → default_version (default_version v) ≡ default_version v
unfolding default_version
default_version_idem v = elim (Bool-cases (starts_with_v v)) [
  | inl t ↦ simp t refl
  | inr f ↦ simp f refl
]

default_remediation_idem :
    (r : RemediationSpec) → default_remediation (default_remediation r) ≡ default_remediation r
unfolding default_remediation
default_remediation_idem r = λ i. record {
  max_retry = or_default_idem default_max_retry r.max_retry i;
  retry_period_seconds = or_default_idem default_retry_period_seconds r.retry_period_seconds i;
  min_healthy_period_seconds =
      or_default_idem default_min_healthy_period_seconds r.min_healthy_period_seconds i;
}

-- Defaulting a specification a second time changes nothing.
pub default_spec_idem : (s : Spec) → default_spec (default_spec s) ≡ default_spec s
unfolding default_spec default_rollout_strategy
default_spec_idem s = λ i. record s {
  replicas = or_default_idem (pos 1) s.replicas i;
  version = default_version_idem s.version i;
  strategy = some (default_strategy_idem s.strategy i);
  remediation = default_remediation_idem s.remediation i;
}

deref_default : (d : ℕ) (o : Option ℕ) → deref (or_default d o) d ≡ deref o d
deref_default d none = refl
deref_default d (some a) = refl

-- The limits that the controller derives from a remediation specification are the same before and
-- after it is defaulted.
pub remediation_limits_for-default_remediation :
    (r : RemediationSpec)
    → remediation_limits_for (default_remediation r) ≡ remediation_limits_for r
unfolding remediation_limits_for default_remediation
remediation_limits_for-default_remediation r = λ i. record {
  max_retry = deref_default default_max_retry r.max_retry i;
  retry_period = deref_default default_retry_period_seconds r.retry_period_seconds i * second;
  min_healthy_period =
      deref_default default_min_healthy_period_seconds r.min_healthy_period_seconds i * second;
}

-- A name of at most 63 bytes: the template's output if that has at most 63, and otherwise the first 58
-- bytes of it, followed by a random text.
pub record IsShortName (suffix rendered name : List ℕ) : Type 0 where
  pub short : length name ≤ max_name_length
  pub kept : length rendered ≤ max_name_length → name ≡ rendered
  pub cut :
      max_name_length < length rendered → name ≡ take max_generated_name_length rendered ++ suffix

trimmed-IsShortName :
    (suffix rendered : List ℕ)
    → length suffix ≤ random_length
    → IsShortName suffix rendered (trimmed suffix rendered)
unfolding trimmed
trimmed-IsShortName suffix rendered h = record {
  short = length-trimmed suffix rendered h;
  kept = λ k. rw (ltb_false (length rendered) k, trimmed) refl;
  cut = λ k. rw (ltb_true (length rendered) k, trimmed) refl;
}
  where
    ltb_true : (n : ℕ) → max_name_length < n → ltb max_name_length n ≡ true
    ltb_true n k = ground arith

    ltb_false : (n : ℕ) → n ≤ max_name_length → ltb max_name_length n ≡ false
    ltb_false n k = ground arith

module _ (execute : Execute) (random suffix : List ℕ) (h : length suffix ≤ random_length) where
  after_render :
      (r : Result (List ℕ)) (name : List ℕ)
      → elim r [ err e ↦ err e | ok n ↦ ok (trimmed suffix n) ] ≡ ok name
      → (rendered : List ℕ) × (r ≡ ok rendered) × IsShortName suffix rendered name
  after_render (err e) name p = cc
  after_render (ok n) name p = (n, refl, rw (ok_inj p) at (trimmed-IsShortName suffix n h))

  -- A generated name has at most 63 bytes, if the random text that it may end in has at most 5. It is
  -- what the template renders to if that has at most 63 bytes, and else the first 58 bytes of that,
  -- followed by the random text.
  pub generate_machine_name-IsShortName :
      (strategy : Option String) (cluster tcp : String) (name : List ℕ)
      → generate_machine_name execute random suffix strategy cluster tcp ≡ ok name
      → (rendered : List ℕ) × (execute (template_of strategy) cluster tcp random ≡ ok rendered)
        × IsShortName suffix rendered name
  unfolding generate_machine_name render_machine_name
  generate_machine_name-IsShortName strategy cluster tcp name p =
      after_render (execute (template_of strategy) cluster tcp random) name p

-- The new reference is of the old one's provider.
pub SameProvider : ObjectRef → ObjectRef → Type 0
SameProvider old new = (old.api_group ≡ new.api_group) × (old.kind ≡ new.kind)

append-nil : {A : Type 0} (xs ys : List A) → (xs ++ ys ≡ []) ↔ ((xs ≡ []) × (ys ≡ []))
append-nil [] ys = (λ p. (refl, p), λ (p, q). q)
append-nil (x ∷ xs) ys = (λ p. cc, λ (p, q). cc)

unless_same_nil :
    (s t : String) (x : FieldError) → ((if str_eq s t then [] else x ∷ []) ≡ []) ↔ (s ≡ t)
unless_same_nil s t x = elim (Bool-cases (str_eq s t)) [
  | inl e ↦ simp e (λ p. (eq_iff s t).0 e, λ p. refl)
  | inr e ↦ simp e (λ p. cc, λ p. cc (e, (eq_iff s t).1 p))
]

-- An update is accepted exactly if the infrastructure's API group and kind stay what they were and
-- the new specification is valid.
pub validate_update_iff :
    (rules : Rules) (old new : Spec)
    → (validate_update rules old new ≡ []) ↔ (
        SameProvider old.template.infrastructure_ref new.template.infrastructure_ref
        × (validate rules new ≡ []))
unfolding validate_update validate_infrastructure_ref_immutable SameProvider
validate_update_iff rules old new =
    let a = old.template.infrastructure_ref in
    let b = new.template.infrastructure_ref in
    let groups = unless_same_nil a.api_group b.api_group (forbidden "apiGroup") in
    let kinds = unless_same_nil a.kind b.kind (forbidden "kind") in
    (
      (λ p.
          let (same, valid) = (append-nil _ _).0 p in
          let (g, k) = (append-nil _ _).0 same in ((groups.0 g, kinds.0 k), valid)),
      (λ ((g, k), valid). (append-nil _ _).1 ((append-nil _ _).1 (groups.1 g, kinds.1 k), valid)),
    )
