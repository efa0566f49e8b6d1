-- ===== src/InPlace/Trigger/Laws.antt =====
-- What the writes of an in-place update leave behind, wherever they stop.
use cluster_api_control_plan.Base.{
  some≢none, ◌≡◌, ◌⊎◌, inl, inr, true, false, none, List, [], ◌∷◌, ◌++◌, String, In, arith, refl,
  sym, insert, lookup-insert, lookup-insert_self, has_key, eq_iff, str_eq, Option-cases, Bool-cases,
  is_some, ap, ◌∙◌,
}
use cluster_api_control_plan.Objects.{Machine, Library, plain, Annotations}
use cluster_api_control_plan.Hooks.{mark_as_pending, is_marked, is_pending, is_updating_in_place}
use cluster_api_control_plan.Hooks.Laws.{AreWords, mark_as_pending-is_pending}
use cluster_api_control_plan.InPlace.Patch.{Plan}
use cluster_api_control_plan.InPlace.Trigger.{
  Client, Effect, marks_pending, Step, and_then, stamp, write_infra, write_config, write_machine,
  mark_pending, from_machine, from_config, from_infra, trigger_in_place_update,
}
use cluster_api_control_plan.InPlace.Trigger.Written.{
  IsWritten, marks-IsWritten, write_infra-machine,
}

module _ (lib : Library) (client : Client) where
  abbrev IsStamped : Machine → Type 0
  IsStamped m = has_key lib.update_in_progress m.annotations ≡ true

  stamp-IsStamped : (m : Machine) → IsStamped (stamp lib client m).machine
  unfolding stamp
  stamp-IsStamped m = elim (Bool-cases (has_key lib.update_in_progress m.annotations)) [
    | inl t ↦ rw t t
    | inr f ↦ rw f (ap is_some (lookup-insert_self lib.update_in_progress (plain "") m.annotations))
  ]

  insert-keeps :
      (key : String) (text : String) (annotations : Annotations)
      → has_key lib.update_in_progress annotations ≡ true
      → has_key lib.update_in_progress (insert key (plain text) annotations) ≡ true
  insert-keeps key text annotations h = elim (Bool-cases (str_eq key lib.update_in_progress)) [
    | inl t ↦ rw (lookup-insert key lib.update_in_progress (plain text) annotations) (rw t refl)
    | inr f ↦ rw (lookup-insert key lib.update_in_progress (plain text) annotations) (rw f h)
  ]

  mark_pending-IsStamped :
      (m : Machine) → IsStamped m → IsStamped (mark_pending lib client m).machine
  unfolding mark_pending mark_as_pending
  mark_pending-IsStamped m h =
      elim (Bool-cases (is_marked lib (lib.update_machine ∷ []) m.annotations)) [
        | inl t ↦ rw t h
        | inr f ↦ rw f (insert-keeps lib.pending_hooks _ m.annotations h)
      ]

  -- A step that keeps the annotation of an update.
  abbrev Keeps : (Machine → Step) → Type 0
  Keeps k = (m : Machine) → IsStamped m → IsStamped (k m).machine

  and_then-IsStamped :
      (s : Step) (k : Machine → Step)
      → IsStamped s.machine
      → Keeps k
      → IsStamped (and_then s k).machine
  unfolding and_then
  and_then-IsStamped s k h keeps = elim (Option-cases s.error) [
    | inl e ↦ rw (e, and_then) (keeps s.machine h)
    | inr (x, e) ↦ rw (e, and_then) h
  ]

  -- The hook is pending on the machine in memory: a patch marked it, or the machine is as it was before
  -- that patch was considered.
  pub record IsPendingFrom (before : Machine) (s : Step) : Type 0 where
    pub listed : is_pending lib lib.update_machine s.machine.annotations ≡ true
    pub marked : In (marks_pending s.machine) s.effects ⊎ (s.machine ≡ before)

  -- A trigger leaves the machine marked as being updated in place, wherever it stops.
  pub record IsCommitted (plan : Plan) (s : Step) : Type 0 where
    pub updating : is_updating_in_place lib s.machine ≡ true
    -- the hook is marked pending only after all writes,
    pub written : (x : Machine) → In (marks_pending x) s.effects → IsWritten lib client plan
    -- and if there is no error, it is pending: it was marked, or was so on the stamped machine
    pub pending : s.error ≡ none → IsPendingFrom (stamp lib client plan.machine).machine s

  trigger-IsStamped : (plan : Plan) → IsStamped (trigger_in_place_update lib client plan).machine
  unfolding trigger_in_place_update write_config write_machine
  trigger-IsStamped plan =
      and_then-IsStamped (stamp lib client plan.machine) (from_infra lib client plan)
        (stamp-IsStamped plan.machine)
        (λ m h.
          and_then-IsStamped (write_infra lib client plan.desired_infra_machine m)
            (from_config lib client plan)
            (rw (write_infra-machine lib client plan.desired_infra_machine m) h)
            (λ m h.
              and_then-IsStamped (write_config lib client plan.desired_talos_config m)
                (from_machine lib client plan) h
                (λ m h.
                  and_then-IsStamped (write_machine lib client plan.desired_machine m)
                    (mark_pending lib client) h mark_pending-IsStamped)))

  append-last : (e : Effect) (xs ys : List Effect) → In e ys → In e (xs ++ ys)
  append-last e [] ys n = n
  append-last e (x ∷ xs) ys n = inr (append-last e xs ys n)

  -- A step that goes on from a machine that is not changed before.
  and_then-IsPendingFrom :
      {m : Machine} (s : Step) (k : Machine → Step)
      → s.machine ≡ m
      → ((m : Machine) → (k m).error ≡ none → IsPendingFrom m (k m))
      → (and_then s k).error ≡ none
      → IsPendingFrom m (and_then s k)
  unfolding and_then
  and_then-IsPendingFrom {m} s k e pend h = elim (Option-cases s.error) [
    | inl p ↦
        let r = pend s.machine (rw (p, and_then) at h) in
        rw (p, and_then)
          (record {
            listed = r.listed;
            marked = elim r.marked [
              | inl n ↦ inl (append-last _ s.effects (k s.machine).effects n)
              | inr q ↦ inr (q ∙ e)
            ];
          })
    | inr (x, p) ↦ absurd (some≢none (sym p ∙ (rw (p, and_then) at h)))
  ]

  mark_pending-IsPendingFrom :
      AreWords (lib.update_machine ∷ [])
      → str_eq lib.update_machine "" ≡ false
      → (m : Machine) → (mark_pending lib client m).error ≡ none
      → IsPendingFrom m (mark_pending lib client m)
  unfolding mark_pending
  mark_pending-IsPendingFrom words named m h = record {
    listed = ground (
      arith,
      mark_as_pending-is_pending lib (client.mark m) (lib.update_machine ∷ []) m.annotations
          lib.update_machine words named,
      eq_iff lib.update_machine lib.update_machine,
    );
    marked = elim (Bool-cases (is_marked lib (lib.update_machine ∷ []) m.annotations)) [
      | inl t ↦ inr (unfold mark_as_pending in rw t refl)
      | inr f ↦ inl (rw f (inl refl))
    ];
  }

  -- Whatever fails, the machine in memory is left marked as being updated in place; the hook that lets
  -- the update begin is marked pending only after the stamp and after the infrastructure, the
  -- configuration and the machine were all taken as they should be, and only where its list changes by
  -- that; and without an error it is pending, by that patch or, where there is none, already on the
  -- machine that was stamped, for a hook whose name is not empty and has no comma.
  pub trigger_in_place_update-IsCommitted :
      (plan : Plan)
      → AreWords (lib.update_machine ∷ [])
      → str_eq lib.update_machine "" ≡ false
      → IsCommitted plan (trigger_in_place_update lib client plan)
  unfolding is_updating_in_place trigger_in_place_update write_config write_machine
  trigger_in_place_update-IsCommitted plan words named = record {
    updating = rw (trigger-IsStamped plan) refl;
    written = marks-IsWritten lib client plan;
    pending =
        and_then-IsPendingFrom (stamp lib client plan.machine) (from_infra lib client plan) refl
          (λ m.
            and_then-IsPendingFrom (write_infra lib client plan.desired_infra_machine m)
              (from_config lib client plan)
              (write_infra-machine lib client plan.desired_infra_machine m)
              (λ m.
                and_then-IsPendingFrom (write_config lib client plan.desired_talos_config m)
                  (from_machine lib client plan) refl
                  (λ m.
                    and_then-IsPendingFrom (write_machine lib client plan.desired_machine m)
                      (mark_pending lib client) refl (mark_pending-IsPendingFrom words named))));
  }
