-- ===== src/Talos.antt =====
-- controllers/etcdclient.go: what the Talos API of one machine answers about etcd. The answers are
-- arguments of the model.
use cluster_api_control_plan.Base.{ℕ, Bool, Option, List, String, Error, Result}
use cluster_api_control_plan.Objects.{Machine, Member}

-- A service as ServiceInfo reports it: the host name of the answer's metadata, the state, the states
-- of its recorded events, and whether it reports itself healthy.
pub record Service : Type 0 where
  pub hostname : String
  pub state : String
  pub events : List String
  pub healthy : Bool

-- One message of EtcdMemberList.
pub record MemberMessage : Type 0 where
  pub hostname : String
  pub members : List Member

-- The client of one machine: the answers of its calls.
pub record EtcdCalls : Type 0 where
  pub service_info : Result (List Service)
  pub member_list : Result (List MemberMessage)
  pub forfeit_leadership : Option Error
  pub leave_cluster : Option Error
  pub remove_member : ℕ → Option Error

-- etcdClientFor
abbrev pub Dial : Type 0
Dial = Machine → Result EtcdCalls
