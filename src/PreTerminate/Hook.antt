-- ===== src/PreTerminate/Hook.antt =====
-- controllers/preterminate.go: the annotations of the hook, and the patches that set and release it.
mod Laws
use cluster_api_control_plan.Base.{
  wrap_error, ℕ, suc, ◌+◌, ◌*◌, Bool, true, false, ◌&&◌, ◌||◌, not, Option, none, some, List, [],
  ◌∷◌, ◌++◌, String, ltb, if◌then◌else◌, lookup, insert, erase, has_key, Message, Error, wrap,
  aggregate, say, about,
}
use cluster_api_control_plan.Objects.{
  Value, time, plain, Annotations, Machine, ControlPlaneObject, second, whole_seconds, is_deleting,
  is_leaving, etcd_leaving, remediation_in_progress_annotation, remediation_for_annotation,
}

abbrev pub pre_terminate_hook : String
pre_terminate_hook = "pre-terminate.delete.hook.machine.cluster.x-k8s.io/tcp-cleanup"

abbrev pub observed_at_annotation : String
observed_at_annotation = "controlplane.cluster.x-k8s.io/etcd-cleanup-observed-at"

abbrev pub default_etcd_cleanup_timeout : ℕ
default_etcd_cleanup_timeout = 120 * second

abbrev pub pre_terminate_requeue_after : ℕ
pre_terminate_requeue_after = 15 * second

-- What the handler does: the object that a patch writes, the calls that change etcd, and events.
pub data Effect : Type 0 where
  patched : Machine → Effect
  forfeited : String → Effect
  left : String → Effect
  removed : ℕ → Effect
  event : String → Message → Effect

-- What the handler meets: the API server's answers, the configured timeout, and the clock when the
-- deadline is anchored and when it is read.
pub record Env : Type 0 where
  pub helper : Machine → Option Error
  pub patch : Machine → Option Error
  pub configured_timeout : ℕ
  pub now : ℕ
  pub later : ℕ

unfoldable pub etcd_cleanup_timeout : Env → ℕ
etcd_cleanup_timeout env =
    if ltb 0 env.configured_timeout then env.configured_timeout else default_etcd_cleanup_timeout

-- The machine in memory, what was done, and the error.
pub record Step : Type 0 where
  pub machine : Machine
  pub effects : List Effect
  pub error : Option Error

abbrev pub unchanged : Machine → Step
unchanged m = record { machine = m; effects = []; error = none }

abbrev pub set_annotation : String → Value → Machine → Machine
set_annotation key value m = record m { annotations = insert key value m.annotations }

-- A patch helper, a change of the object in memory, and the patch.
unfoldable pub patch_with : Env → String → (Machine → Machine) → Machine → Step
patch_with env text change m = elim (env.helper m) [
  | some e ↦ record { machine = m; effects = []; error = some e }
  | none ↦ record {
    machine = change m;
    effects = patched (change m) ∷ [];
    error = wrap_error text m.name (env.patch (change m));
  }
]

-- etcdCleanupObservedAt: none where the annotation is missing or no time.
unfoldable pub etcd_cleanup_observed_at : Machine → Option ℕ
etcd_cleanup_observed_at m = elim (lookup observed_at_annotation m.annotations) [
  | some (time t) ↦ some t
  | _ ↦ none
]

abbrev pub is_hooked : Machine → Bool
is_hooked m = has_key pre_terminate_hook m.annotations

abbrev pub without_hook : Machine → Machine
without_hook m = record m {
  annotations = erase observed_at_annotation (erase pre_terminate_hook m.annotations);
}

unfoldable pub release_pre_terminate_hook : Env → Machine → Step
unfolding patch_with
release_pre_terminate_hook env m =
    if not (is_hooked m) && not (has_key observed_at_annotation m.annotations)
    then unchanged m
    else patch_with env "failed to release the pre-terminate hook on machine" without_hook m

unfoldable pub stamp_etcd_cleanup_observed_at : Env → Machine → Step
unfolding patch_with etcd_cleanup_observed_at whole_seconds
stamp_etcd_cleanup_observed_at env m = elim (etcd_cleanup_observed_at m) [
  | some _ ↦ unchanged m
  | none ↦
      patch_with env "failed to anchor the etcd cleanup deadline on machine"
        (set_annotation observed_at_annotation (time (whole_seconds env.now))) m
]

unfoldable pub clear_etcd_cleanup_observed_at : Env → Machine → Step
unfolding patch_with
clear_etcd_cleanup_observed_at env m =
    if not (has_key observed_at_annotation m.annotations)
    then unchanged m
    else patch_with env "failed to reset the etcd cleanup deadline on machine"
        (λ x. record x { annotations = erase observed_at_annotation x.annotations }) m

unfoldable pub mark_etcd_leaving : Env → Machine → Step
unfolding patch_with
mark_etcd_leaving env m =
    if is_leaving m
    then unchanged m
    else patch_with env "failed to mark machine as leaving etcd"
        (set_annotation etcd_leaving (plain "true")) m

-- One turn of stampPreTerminateHooks: machines that are being deleted or have the hook are left.
unfoldable pub stamp_hook : Env → Machine → Step
unfolding patch_with
stamp_hook env m =
    if is_deleting m || is_hooked m
    then unchanged m
    else patch_with env "failed to add the pre-terminate hook to machine"
        (set_annotation pre_terminate_hook (plain "")) m

unfoldable pub stamp_pre_terminate_hooks :
    Env → List Machine → List Machine × List Effect × Option Error
unfolding stamp_hook
stamp_pre_terminate_hooks env [] = ([], [], none)
stamp_pre_terminate_hooks env (m ∷ ms) =
    let s = stamp_hook env m in
    let (ms', effects, e) = stamp_pre_terminate_hooks env ms in
    (s.machine ∷ ms', s.effects ++ effects, aggregate s.error e)

-- desiredMachineAnnotations: what a new machine carries.
unfoldable pub desired_machine_annotations : ControlPlaneObject → Annotations
desired_machine_annotations tcp =
    let hooked = insert pre_terminate_hook (plain "") tcp.template_annotations in
    elim (lookup remediation_in_progress_annotation tcp.annotations) [
      | none ↦ hooked
      | some value ↦ insert remediation_for_annotation value hooked
    ]

-- What a handler returns: the machine as it leaves it, what it did, when to requeue, and the error.
pub record Return : Type 0 where
  pub machine : Machine
  pub effects : List Effect
  pub requeue_after : ℕ
  pub error : Option Error

abbrev pub fail : Step → Return
fail s = record { machine = s.machine; effects = s.effects; requeue_after = 0; error = s.error }

-- Goes on after a step that had no error.
unfoldable pub and_then : Step → (Machine → Return) → Return
and_then s k = elim s.error [
  | some e ↦ fail s
  | none ↦ let r = k s.machine in record r { effects = s.effects ++ r.effects }
]

abbrev pub finish : String → Message → Machine → Return
finish reason message m = record {
  machine = m;
  effects = event reason message ∷ [];
  requeue_after = 0;
  error = none;
}

unfoldable pub release_with_event : Env → String → Message → Machine → Return
unfolding release_pre_terminate_hook and_then
release_with_event env reason message m =
    and_then (release_pre_terminate_hook env m) (finish reason message)

-- The deadline has passed since the anchor.
unfoldable pub is_overdue : Env → Machine → Bool
unfolding etcd_cleanup_observed_at etcd_cleanup_timeout
is_overdue env m = elim (etcd_cleanup_observed_at m) [
  | none ↦ false
  | some t ↦ ltb (t + etcd_cleanup_timeout env) env.later
]

unfoldable pub fail_open_or_retry : Env → Error → Machine → Return
unfolding is_overdue release_with_event
fail_open_or_retry env cause m =
    if is_overdue env m
    then release_with_event env "EtcdCleanupOrphaned"
        (Message.both (say "gave up removing the etcd member") cause) m
    else record {
      machine = m;
      effects = [];
      requeue_after = pre_terminate_requeue_after;
      error = some (wrap "failed to remove machine from etcd" m.name cause);
    }
