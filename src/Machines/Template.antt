-- ===== src/Machines/Template.antt =====
-- controllers/taloscontrolplane_controller.go: what the machines take over from the machine template.
use cluster_api_control_plan.Base.{
  Bool, true, false, ◌&&◌, ◌||◌, not, Option, none, some, List, [], ◌∷◌, String, str_eq, ◌==◌,
  if◌then◌else◌, deref, lookup, insert, Map, Error,
}
use cluster_api_control_plan.Objects.{
  Machine, ControlPlaneObject, Library, Value, remediation, time, plain, ReadinessGate,
  DeletionSpec, MachineTemplate, Annotations, is_deleting,
}
use cluster_api_control_plan.Rollout.Equality.{option_eq, list_eq}
use cluster_api_control_plan.Boot.{LabelRules, control_plane_machine_labels_for_cluster}

-- The texts of two annotations are equal.
abbrev pub value_eq : Value → Value → Bool
value_eq (plain s) (plain t) = str_eq s t
value_eq (time a) (time b) = a == b
value_eq (remediation d) (remediation e) =
    str_eq d.machine e.machine && (d.timestamp == e.timestamp) && (d.retry_count == e.retry_count)
value_eq _ _ = false

-- Copies the entries that differ, a missing one being the zero value; says whether there are any.
module _ {V : Type 0} (zero_value : V) (eq : V → V → Bool) where
  unfoldable pub copy_entries : Map V → Map V → Map V × Bool
  copy_entries [] m = (m, false)
  copy_entries ((key, value) ∷ rest) m =
      let same = eq (deref (lookup key m) zero_value) value in
      let (m', changed) = copy_entries rest (if same then m else insert key value m) in
      (m', changed || not same)

abbrev pub gate_eq : ReadinessGate → ReadinessGate → Bool
gate_eq a b = str_eq a.condition_type b.condition_type && str_eq a.polarity b.polarity

abbrev pub deletion_eq : DeletionSpec → DeletionSpec → Bool
deletion_eq a b =
    option_eq ◌==◌ a.node_drain b.node_drain
    && option_eq ◌==◌ a.node_volume_detach b.node_volume_detach
    && option_eq ◌==◌ a.node_deletion b.node_deletion

-- The machine with what the template asks for, and whether that changes it.
unfoldable pub apply_template :
    Map String → Annotations → MachineTemplate → Machine → Machine × Bool
unfolding copy_entries
apply_template labels annotations template m =
    let (labels', l) = copy_entries "" str_eq labels m.labels in
    let (annotations', a) = copy_entries (plain "") value_eq annotations m.annotations in
    (
      record m {
        labels = labels';
        annotations = annotations';
        readiness_gates = template.readiness_gates;
        deletion_spec = template.deletion_spec;
      },
      l
          || a
          || not (list_eq gate_eq m.readiness_gates template.readiness_gates)
          || not (deletion_eq m.deletion_spec template.deletion_spec),
    )

-- The answers of the patch helper and of the patch.
pub record Patcher : Type 0 where
  pub helper : Machine → Option Error
  pub patch : Machine → Option Error

-- The machines in memory, those that are patched, and the error that ends the loop.
pub record Synced : Type 0 where
  pub machines : List Machine
  pub patched : List Machine
  pub error : Option Error

abbrev pub kept : Machine → Synced → Synced
kept m s = record s { machines = m ∷ s.machines }

abbrev pub synced : Machine → Synced → Synced
synced m s = record s { machines = m ∷ s.machines; patched = m ∷ s.patched }

abbrev pub after_patch : Machine → List Machine → Synced → Option Error → Synced
after_patch m ms rest none = synced m rest
after_patch m ms rest (some e) = record { machines = m ∷ ms; patched = m ∷ []; error = some e }

abbrev pub sync_one :
    Patcher → Machine → List Machine → Synced → Machine × Bool → Option Error → Synced
sync_one p m ms rest (m', changed) (some e) = record {
  machines = m ∷ ms;
  patched = [];
  error = some e;
}
sync_one p m ms rest (m', false) none = kept m rest
sync_one p m ms rest (m', true) none = after_patch m' ms rest (p.patch m')

module _ (p : Patcher) (labels : Map String) (annotations : Annotations)
    (template : MachineTemplate) where
  unfoldable pub sync_machines : List Machine → Synced
  unfolding apply_template
  sync_machines [] = record { machines = []; patched = []; error = none }
  sync_machines (m ∷ ms) =
      let rest = sync_machines ms in
      if is_deleting m
      then kept m rest
      else sync_one p m ms rest (apply_template labels annotations template m) (p.helper m)

unfoldable pub reconcile_machine_template_state :
    Library → LabelRules → Patcher → String → ControlPlaneObject → List Machine → Synced
unfolding sync_machines
reconcile_machine_template_state lib rules p cluster_name tcp machines =
    sync_machines p (control_plane_machine_labels_for_cluster lib rules tcp cluster_name)
      tcp.template_annotations tcp.template machines
