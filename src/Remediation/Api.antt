-- ===== src/Remediation/Api.antt =====
-- controllers/remediation.go: what the API server and the Talos API answer to the handler, and what the
-- handler does to them.
use cluster_api_control_plan.Base.{Bool, Option, none, some, String, Message, Error, Result}
use cluster_api_control_plan.Objects.{Machine, Value}

-- What a call of the API server answers.
pub data Answer : Type 0 where
  done not_found : Answer
  failed : Error → Answer

pub record Api : Type 0 where
  -- patch.NewHelper and its Patch, for a machine
  pub helper : Machine → Option Error
  pub patch : Machine → Answer
  pub delete : Machine → Answer
  pub patch_control_plane : Option Error
  -- hasEtcdDataOn
  pub has_etcd_data : Machine → Result Bool

-- What the handler did, in order.
pub data Effect : Type 0 where
  recorded : Value → Effect
  deleted : String → Effect
  patched : Machine → Effect
  event : String → Message → Effect

-- A patch that is refused for any reason is an error.
abbrev pub error_of : Answer → Option Error
error_of done = none
error_of not_found = some (Message.external "not found")
error_of (failed e) = some e

-- One that finds no object is none.
abbrev pub error_unless_gone : Answer → Option Error
error_unless_gone (failed e) = some e
error_unless_gone _ = none
