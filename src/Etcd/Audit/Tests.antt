-- ===== src/Etcd/Audit/Tests.antt =====
-- An audit of two machines that finds the member of a third.
use cluster_api_control_plan.Base.{◌≡◌, inl, true, none, List, [], ◌∷◌, refl, ok, In, All}
use cluster_api_control_plan.Objects.{Machine, has_node}
use cluster_api_control_plan.Etcd.Audit.{audit_etcd}
use cluster_api_control_plan.Etcd.Audit.Laws.{Source, IsOrphanOf, audit_etcd-removes}
use cluster_api_control_plan.Samples.{cp_a, cp_c, dial}

abbrev machines : List Machine
machines = cp_a ∷ cp_c ∷ []

orphan_removed : audit_etcd dial (ok machines) ≡ (2 ∷ [], none)
unfolding audit_etcd cluster_api_control_plan.Etcd.Audit.designated_machine
    cluster_api_control_plan.Etcd.Audit.remove_orphans
    cluster_api_control_plan.Etcd.Names.etcd_member_names
orphan_removed = refl

removal : In 2 (audit_etcd dial (ok machines)).0
unfolding audit_etcd cluster_api_control_plan.Etcd.Audit.designated_machine
    cluster_api_control_plan.Etcd.Audit.remove_orphans
    cluster_api_control_plan.Etcd.Names.etcd_member_names
removal = inl refl

no_error : (audit_etcd dial (ok machines)).1 ≡ none
unfolding audit_etcd cluster_api_control_plan.Etcd.Audit.designated_machine
    cluster_api_control_plan.Etcd.Audit.remove_orphans
    cluster_api_control_plan.Etcd.Names.etcd_member_names
no_error = refl

audit_etcd-removes_example :
    All (λ (m : Machine). has_node m ≡ true) machines × (s : Source dial machines) × IsOrphanOf s 2
audit_etcd-removes_example = audit_etcd-removes dial machines 2 removal
