-- ===== src/PreTerminate/Membership/Calm.antt =====
-- The steps of the handler that leave etcd alone.
use cluster_api_control_plan.Base.{
  ◌≡◌, ◌⊎◌, Bool, true, false, List, String, any, any-append, Error, Message, arith,
}
use cluster_api_control_plan.Objects.{Machine, Member}
use cluster_api_control_plan.Talos.{Dial}
use cluster_api_control_plan.PreTerminate.Hook.{
  Effect, patched, forfeited, left, removed, event, Env, Step, Return, and_then, release_with_event,
  fail_open_or_retry, stamp_etcd_cleanup_observed_at, clear_etcd_cleanup_observed_at, patch_with,
}
use cluster_api_control_plan.PreTerminate.Membership.{Shortfall, hold_for_quorum}

-- A call that changes etcd's leadership or membership.
abbrev pub is_change : Effect → Bool
is_change (patched m) = false
is_change (event reason message) = false
is_change (forfeited name) = true
is_change (left name) = true
is_change (removed id) = true

abbrev pub changes_etcd : List Effect → Bool
changes_etcd = any is_change

pub patch_with_calm :
    (env : Env) (text : String) (f : Machine → Machine) (m : Machine)
    → changes_etcd (patch_with env text f m).effects ≡ false
unfolding patch_with
patch_with_calm env text f m = ground arith

pub and_then_calm :
    (s : Step) (k : Machine → Return)
    → changes_etcd s.effects ≡ false
    → (changes_etcd (and_then s k).effects ≡ false)
      ⊎ (changes_etcd (and_then s k).effects ≡ changes_etcd (k s.machine).effects)
unfolding and_then
and_then_calm s k h = ground (arith, any-append is_change s.effects (k s.machine).effects)

pub release_with_event_calm :
    (env : Env) (reason : String) (message : Message) (m : Machine)
    → changes_etcd (release_with_event env reason message m).effects ≡ false
unfolding release_with_event
release_with_event_calm env reason message m = ground arith

pub fail_open_or_retry_calm :
    (env : Env) (cause : Error) (m : Machine)
    → changes_etcd (fail_open_or_retry env cause m).effects ≡ false
unfolding fail_open_or_retry
fail_open_or_retry_calm env cause m = ground arith

pub hold_for_quorum_calm :
    (env : Env) (dial : Dial) (member : Member) (s : Shortfall) (m : Machine)
    → changes_etcd (hold_for_quorum env dial member s m).effects ≡ false
unfolding hold_for_quorum clear_etcd_cleanup_observed_at and_then
hold_for_quorum_calm env dial member s m = ground arith

pub stamp_calm :
    (env : Env) (m : Machine) → changes_etcd (stamp_etcd_cleanup_observed_at env m).effects ≡ false
unfolding stamp_etcd_cleanup_observed_at
stamp_calm env m = ground arith
