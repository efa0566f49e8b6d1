-- ===== src/PreTerminate/Service/Laws.antt =====
-- One deleting machine is serviced at a time, the oldest deletion first.
use cluster_api_control_plan.Base.{
  ◌≤◌, ◌≡◌, inl, inr, true, false, ◌&&◌, not, Option, none, some, List, [], ◌∷◌, find?, head?, In,
  In-filter, filter-In, All-In, at_most, IsOrder, ℕ-IsOrder, string-IsOrder, on-IsOrder,
  then_by-IsOrder, head?-sort_by, arith, refl, deref, find?-none, Option-cases,
}
use cluster_api_control_plan.Objects.{Machine, ControlPlaneObject, Cluster, is_deleting}
use cluster_api_control_plan.Talos.{Dial}
use cluster_api_control_plan.PreTerminate.Hook.{Env, is_hooked, pre_terminate_requeue_after}
use cluster_api_control_plan.PreTerminate.Membership.{reconcile_hook_for_machine}
use cluster_api_control_plan.PreTerminate.Service.{
  by_deletion, deleting_machines, after_service, service_first, service_unless_unhooked,
  service_pre_terminate_hooks,
}

by_deletion-IsOrder : IsOrder by_deletion
unfolding by_deletion
by_deletion-IsOrder =
    then_by-IsOrder (on-IsOrder (λ (m : Machine). deref m.deletion 0) ℕ-IsOrder)
      (on-IsOrder (λ (m : Machine). m.name) string-IsOrder)

not_after :
    (a b : Machine) → at_most (by_deletion a b) ≡ true → deref a.deletion 0 ≤ deref b.deletion 0
unfolding by_deletion
not_after a b h = ground arith

-- The machine may be serviced: it is being deleted and has the hook, as all that are being deleted,
-- and none of them was deleted before it.
pub record IsOldest (owned : List Machine) (m : Machine) : Type 0 where
  pub listed : In m owned
  pub deleting : is_deleting m ≡ true
  pub hooked : is_hooked m ≡ true
  pub all_hooked : (x : Machine) → In x owned → is_deleting x ≡ true → is_hooked x ≡ true
  pub oldest :
      (x : Machine) → In x owned → is_deleting x ≡ true → deref m.deletion 0 ≤ deref x.deletion 0

module _ (owned : List Machine) (m : Machine) where
  head-IsOldest :
      (deleting_machines owned).1 ≡ none
      → head? (deleting_machines owned).0 ≡ some m
      → IsOldest owned m
  unfolding deleting_machines
  head-IsOldest u h =
      let (at, least) = head?-sort_by by_deletion-IsOrder _ h in
      let (listed, fits) = In-filter _ owned m at in
      let hooked_all : (x : Machine) → In x owned → is_deleting x ≡ true → is_hooked x ≡ true =
        λ x n d. ground (arith, All-In _ owned x (find?-none _ owned u) n) in
      record {
        listed = listed;
        deleting = ground arith;
        hooked = ground arith;
        all_hooked = hooked_all;
        oldest = λ x n d.
            not_after m x
              (All-In _ _ x least (filter-In _ owned x n (ground (arith, hooked_all x n d))));
      }

module _ (env : Env) (dial : Dial) (cluster : Cluster) (tcp : ControlPlaneObject) where
  first-is-serviced :
      (owned hooked : List Machine) (m : Machine)
      → (service_first env dial cluster tcp owned hooked).serviced ≡ some m
      → head? hooked ≡ some m
  unfolding service_first after_service
  first-is-serviced owned [] m h = cc
  first-is-serviced owned (x ∷ xs) m h =
      elim (Option-cases (reconcile_hook_for_machine env dial cluster tcp owned x).error) [
        | inl e ↦ ground arith
        | inr (w, e) ↦ ground arith
      ]

  -- A machine is serviced only if it is being deleted and carries the hook, every other owned machine
  -- that is being deleted carries the hook too, and none of them has an earlier deletion time.
  pub service_pre_terminate_hooks-IsOldest :
      (owned : List Machine) (m : Machine)
      → (service_pre_terminate_hooks env dial cluster tcp owned).serviced ≡ some m
      → IsOldest owned m
  unfolding service_pre_terminate_hooks service_unless_unhooked
  service_pre_terminate_hooks-IsOldest owned m h = from (deleting_machines owned).1 refl h
    where
      from :
          (u : Option Machine)
          → (deleting_machines owned).1 ≡ u
          → (service_unless_unhooked env dial cluster tcp owned
              (deleting_machines owned).0
              u).serviced
            ≡ some m
          → IsOldest owned m
      from (some x) e h = cc
      from none e h =
          head-IsOldest owned m e (first-is-serviced owned (deleting_machines owned).0 m h)

  -- While a machine without the hook is being deleted, nothing is done, and the pass comes back.
  pub service_pre_terminate_hooks-unhooked :
      (owned : List Machine) (x : Machine)
      → In x owned
      → is_deleting x ≡ true
      → is_hooked x ≡ false
      → let pass = service_pre_terminate_hooks env dial cluster tcp owned in
        (pass.serviced ≡ none)
        × (pass.effects ≡ [])
        × (pass.requeue_after ≡ pre_terminate_requeue_after)
        × (pass.error ≡ none)
  unfolding service_pre_terminate_hooks deleting_machines service_unless_unhooked
  service_pre_terminate_hooks-unhooked owned x n d f =
      from (find? (λ m. is_deleting m && not (is_hooked m)) owned) refl
    where
      from :
          (u : Option Machine)
          → find? (λ m. is_deleting m && not (is_hooked m)) owned ≡ u
          → let pass =
              service_unless_unhooked env dial cluster tcp owned (deleting_machines owned).0 u in
            (pass.serviced ≡ none)
            × (pass.effects ≡ [])
            × (pass.requeue_after ≡ pre_terminate_requeue_after)
            × (pass.error ≡ none)
      from (some _) e = (refl, refl, refl, refl)
      from none e = absurd (ground (arith, All-In _ owned x (find?-none _ owned e) n))
