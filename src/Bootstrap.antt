-- ===== src/Bootstrap.antt =====
-- controllers/bootstrap.go: which machine gets the Talos bootstrap request, the one that starts etcd.
mod Holders
mod Candidates
mod Requests
mod Pending
pub mod Kept
mod Tests
use cluster_api_control_plan.Base.{
  ℕ, ◌*◌, Bool, true, false, ◌&&◌, ◌||◌, not, Option, none, some, List, [], ◌∷◌, ◌++◌, String, any,
  filter, find?, head?, length, leb, if◌then◌else◌, is_some, deref, str_eq, Message, Error, Result,
  ok, err, wrap, say, about, aggregate, Cmp, then_by, sort_by, compare, compare_string,
}
use cluster_api_control_plan.Objects.{
  Machine, ControlPlaneObject, Address, AddressType, internal_ip, external_ip, is_deleting, second,
  holds, fails, set_condition,
}

-- What the node answers to the bootstrap request.
pub data BootstrapAnswer : Type 0 where
  accepted already_exists : BootstrapAnswer
  refused : Error → BootstrapAnswer

-- The Talos API of the nodes: hasEtcdDataOn, talosconfigForMachines, and Bootstrap at an address.
pub record Nodes : Type 0 where
  pub has_etcd_data : Machine → Result Bool
  pub client : Machine → Option Error
  pub bootstrap : String → BootstrapAnswer

pub data Effect : Type 0 where
  requested : String → String → Effect
  event : String → Message → Effect

-- The object as it is left, what was done, and when to look again.
pub record Outcome : Type 0 where
  pub tcp : ControlPlaneObject
  pub effects : List Effect
  pub requeue_after : ℕ

abbrev pub bootstrap_retry_after : ℕ
bootstrap_retry_after = 20 * second

abbrev pub machines_bootstrapped : String
machines_bootstrapped = "MachinesBootstrapped"

abbrev is_internal : AddressType → Bool
is_internal internal_ip = true
is_internal _ = false

abbrev is_external : AddressType → Bool
is_external external_ip = true
is_external _ = false

abbrev address_or : String → Option Address → String
address_or s none = s
address_or s (some a) = a.address

-- machineBootstrapAddress: the empty text where there is none.
unfoldable pub machine_bootstrap_address : Machine → String
machine_bootstrap_address m =
    address_or (address_or "" (find? (λ a. is_external a.kind) m.addresses))
      (find? (λ a. is_internal a.kind) m.addresses)

unfoldable pub is_bootstrap_candidate : Machine → Bool
unfolding machine_bootstrap_address
is_bootstrap_candidate m = not (is_deleting m) && not (str_eq (machine_bootstrap_address m) "")

unfoldable pub oldest_first : Cmp Machine
oldest_first a b = then_by (compare a.created b.created) (compare_string a.name b.name)

unfoldable pub bootstrap_candidates : List Machine → List Machine
unfolding is_bootstrap_candidate oldest_first
bootstrap_candidates machines = sort_by oldest_first (filter is_bootstrap_candidate machines)

unfoldable pub record_bootstrapped : Machine → ControlPlaneObject → ControlPlaneObject
record_bootstrapped m tcp = record tcp {
  bootstrapped = true;
  bootstrapped_machine = m.name;
  conditions =
      set_condition machines_bootstrapped holds "MachinesBootstrapped"
        (about "bootstrapped the control plane" m.name) tcp.conditions;
}

unfoldable pub hold_bootstrap : String → Message → ControlPlaneObject → Outcome
hold_bootstrap reason message tcp = record {
  tcp = record tcp {
    conditions = set_condition machines_bootstrapped fails reason message tcp.conditions;
  };
  effects = [];
  requeue_after = bootstrap_retry_after;
}

abbrev pub error_of : BootstrapAnswer → Option Error
error_of (refused e) = some (Message.both (say "bootstrap request failed") e)
error_of _ = none

abbrev pub is_initialized : ControlPlaneObject → Bool
is_initialized tcp = deref tcp.initialized false

-- What follows the request.
unfoldable pub after_request : Machine → ControlPlaneObject → List Effect × Option Error → Outcome
unfolding hold_bootstrap record_bootstrapped
after_request target tcp (did, some e) =
    record (hold_bootstrap "WaitingForTalosBoot"
      (wrap "Failed to bootstrap control plane machine" target.name e) tcp) { effects = did }
after_request target tcp (did, none) = record {
  tcp = record_bootstrapped target tcp;
  effects =
      did
      ++ event "ControlPlaneBootstrapped" (about "received the bootstrap request" target.name) ∷ [];
  requeue_after = 0;
}

-- The machines that may yet turn out to hold the data.
unfoldable pub unreachable : List Machine → List Machine
unfolding machine_bootstrap_address
unreachable machines =
    filter (λ m. not (is_deleting m) && str_eq (machine_bootstrap_address m) "") machines

abbrev gone : ControlPlaneObject → Message
gone tcp =
    about "Control plane machine is gone before the control plane was initialized"
      tcp.bootstrapped_machine

-- releaseBootstrap where all machines can be asked, and whether a new bootstrap is due.
unfoldable pub release_among : ControlPlaneObject → Option Machine × Option Error → Outcome × Bool
unfolding hold_bootstrap record_bootstrapped
release_among tcp (some holder, _) = (
  record {
    tcp = record_bootstrapped holder tcp;
    effects =
        event "BootstrappedMachineGone"
          (Message.both (gone tcp) (about "holds the etcd data" holder.name))
        ∷ [];
    requeue_after = 0;
  },
  false,
)
release_among tcp (none, some e) = (
  hold_bootstrap "BootstrappedMachineGone"
      (Message.both (gone tcp)
        (Message.both (say "cannot tell whether a remaining machine holds the etcd data") e))
      tcp,
  false,
)
release_among tcp (none, none) = (
  record {
    tcp = record tcp { bootstrapped = false; bootstrapped_machine = "" };
    effects =
        event "BootstrappedMachineGone" (
          Message.both (gone tcp)
            (say "no remaining machine holds etcd data, bootstrapping another machine"))
        ∷ [];
    requeue_after = 0;
  },
  true,
)

-- One turn of the loop over the machines, given what the later turns find.
abbrev pub note_answer :
    Machine → Result Bool → Option Machine × Option Error → Option Machine × Option Error
note_answer m (err why) (holder, e) =
    (holder, if is_some holder then none else aggregate (some (wrap "machine" m.name why)) e)
note_answer m (ok true) _ = (some m, none)
note_answer m (ok false) found = found

module _ (nodes : Nodes) where
  -- The first of the machines that holds etcd data, and otherwise why some could not be asked.
  unfoldable pub etcd_data_holder_among : List Machine → Option Machine × Option Error
  etcd_data_holder_among [] = (none, none)
  etcd_data_holder_among (m ∷ ms) =
      note_answer m (nodes.has_etcd_data m) (etcd_data_holder_among ms)

  -- bootstrapMachine
  unfoldable pub bootstrap_machine : Machine → List Effect × Option Error
  unfolding machine_bootstrap_address
  bootstrap_machine m =
      if str_eq (machine_bootstrap_address m) ""
      then ([], some (about "machine doesn't have any InternalIP or ExternalIP address yet" m.name))
      else elim (nodes.client m) [
        | some e ↦ ([], some e)
        | none ↦ (
          requested m.name (machine_bootstrap_address m) ∷ [],
          error_of (nodes.bootstrap (machine_bootstrap_address m)),
        )
      ]

  unfoldable pub bootstrap_first :
      Machine → ControlPlaneObject → Option Machine × Option Error → Outcome
  unfolding hold_bootstrap record_bootstrapped after_request
  bootstrap_first target tcp (some holder, _) = record {
    tcp = record_bootstrapped holder tcp;
    effects = [];
    requeue_after = 0;
  }
  bootstrap_first target tcp (none, some e) =
      hold_bootstrap "WaitingForTalosBoot"
        (Message.both (say "Cannot tell whether a control plane machine already holds etcd data") e)
        tcp
  bootstrap_first target tcp (none, none) = after_request target tcp (bootstrap_machine target)

  unfoldable pub bootstrap_among : List Machine → ControlPlaneObject → Outcome
  unfolding hold_bootstrap bootstrap_first
  bootstrap_among [] tcp =
      hold_bootstrap "WaitingForTalosBoot"
        (say "Waiting for the first control plane machine to report an address") tcp
  bootstrap_among (target ∷ others) tcp =
      bootstrap_first target tcp (etcd_data_holder_among (target ∷ others))

  unfoldable pub bootstrap_control_plane : List Machine → ControlPlaneObject → Outcome
  unfolding bootstrap_among
  bootstrap_control_plane machines tcp = bootstrap_among (bootstrap_candidates machines) tcp

  unfoldable pub release_bootstrap : List Machine → ControlPlaneObject → Outcome × Bool
  unfolding hold_bootstrap unreachable release_among
  release_bootstrap machines tcp =
      if leb 1 (length (unreachable machines))
      then (
        hold_bootstrap "BootstrappedMachineGone"
            (Message.both (gone tcp) (say "waiting for machines to report an address")) tcp,
        false,
      )
      else release_among tcp (etcd_data_holder_among (bootstrap_candidates machines))

  abbrev pub after_release : List Machine → Outcome × Bool → Outcome
  after_release machines (o, false) = o
  after_release machines (o, true) =
      let next = bootstrap_control_plane machines o.tcp in
      record next { effects = o.effects ++ next.effects }

  abbrev nothing : ControlPlaneObject → Outcome
  nothing tcp = record { tcp = tcp; effects = []; requeue_after = 0 }

  abbrev record_initialized : ControlPlaneObject → ControlPlaneObject
  record_initialized tcp = record tcp {
    bootstrapped = true;
    conditions =
        set_condition machines_bootstrapped holds "MachinesBootstrapped"
          (say "The control plane is initialized") tcp.conditions;
  }

  unfoldable pub reconcile_bootstrap : List Machine → ControlPlaneObject → Outcome
  reconcile_bootstrap machines tcp =
      if not tcp.bootstrapped && is_initialized tcp
      then nothing (record_initialized tcp)
      else if not tcp.bootstrapped
      then bootstrap_control_plane machines tcp
      else if is_initialized tcp || str_eq tcp.bootstrapped_machine ""
      then nothing tcp
      else if any (λ (m : Machine). str_eq m.name tcp.bootstrapped_machine) machines
      then nothing tcp
      else after_release machines (release_bootstrap machines tcp)
