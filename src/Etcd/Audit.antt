-- ===== src/Etcd/Audit.antt =====
-- controllers/etcd.go, auditEtcd: the members that match no control plane machine are removed.
mod Laws
mod Tests
use cluster_api_control_plan.Base.{
  ℕ, Bool, true, false, ◌&&◌, not, Option, none, some, List, [], ◌∷◌, String, any, find?, to_lower,
  str_eq, if◌then◌else◌, Error, Result, ok, err, wrap, say, about, Message,
}
use cluster_api_control_plan.Objects.{Machine, Member, is_deleting, has_node}
use cluster_api_control_plan.Talos.{MemberMessage, EtcdCalls, Dial}
use cluster_api_control_plan.Etcd.Names.{etcd_member_names, contains}

-- The loop over the members: the ids that are asked to be removed, and the error.
unfoldable pub remove_orphans :
    EtcdCalls → String → List (List ℕ) → List Member → List ℕ × Option Error
remove_orphans c via owned [] = ([], none)
remove_orphans c via owned (m ∷ ms) =
    let (ids, e) = remove_orphans c via owned ms in
    if str_eq m.hostname ""
    then ([], some (say "discovered etcd member with empty hostname"))
    else if contains owned (to_lower m.hostname)
    then (ids, e)
    else elim (c.remove_member m.id) [
      | some _ ↦ (
        m.id ∷ [],
        some (
            Message.both (about "error leaving etcd for member" m.hostname)
              (about "via machine" via)),
      )
      | none ↦ (m.id ∷ ids, e)
    ]

abbrev pub audit_list :
    EtcdCalls → Machine → List Machine → Result (List MemberMessage) → List ℕ × Option Error
audit_list c via machines (err e) = ([], some (wrap "error getting etcd members via" via.name e))
audit_list c via machines (ok []) =
    ([], some (about "empty etcd member list response from machine" via.name))
audit_list c via machines (ok (msg ∷ _)) =
    remove_orphans c via.name (etcd_member_names machines) msg.members

abbrev pub audit_with : Machine → List Machine → Result EtcdCalls → List ℕ × Option Error
audit_with via machines (err e) = ([], some e)
audit_with via machines (ok c) = audit_list c via machines c.member_list

-- The first machine that is not being deleted and has a node.
unfoldable pub designated_machine : List Machine → Option Machine
designated_machine machines = find? (λ m. not (is_deleting m) && has_node m) machines

unfoldable pub audit_via : Dial → List Machine → Option Machine → List ℕ × Option Error
audit_via dial machines none =
    ([], some (say "no CP machine which is not being deleted and has node ref"))
audit_via dial machines (some m) = audit_with m machines (dial m)

-- It starts from what the list call of the machines answers.
unfoldable pub audit_etcd : Dial → Result (List Machine) → List ℕ × Option Error
unfolding audit_via
audit_etcd dial (err e) = ([], some e)
audit_etcd dial (ok []) = ([], none)
audit_etcd dial (ok (m ∷ ms)) =
    if any (λ x. not (has_node x)) (m ∷ ms)
    then ([], some (say "some CP machines do not have a noderef"))
    else audit_via dial (m ∷ ms) (designated_machine (m ∷ ms))
