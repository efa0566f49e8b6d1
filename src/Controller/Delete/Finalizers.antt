-- ===== src/Controller/Delete/Finalizers.antt =====
-- The finalizers of a control plane settle in one pass.
use cluster_api_control_plan.Base.{
  ◌≡◌, inl, inr, true, false, List, [], ◌∷◌, String, any-append, str_eq, eq_iff, arith, refl,
  Bool-cases, ◌∙◌,
}
use cluster_api_control_plan.Objects.{ControlPlaneObject}
use cluster_api_control_plan.Controller.Delete.{
  finalizer, legacy_finalizer, contains_finalizer, add_finalizer, remove_finalizer,
  ensure_finalizers,
}

contains-remove_self :
    (f : String) (fs : List String) → contains_finalizer f (remove_finalizer f fs) ≡ false
contains-remove_self f [] = refl
contains-remove_self f (x ∷ xs) = elim (Bool-cases (str_eq f x)) [
  | inl t ↦ rw t (contains-remove_self f xs)
  | inr e ↦ rw (e, e) (contains-remove_self f xs)
]

contains-remove_other :
    (f g : String) (fs : List String)
    → str_eq f g ≡ false
    → contains_finalizer f (remove_finalizer g fs) ≡ contains_finalizer f fs
contains-remove_other f g [] h = refl
contains-remove_other f g (x ∷ xs) h =
    ground (arith, contains-remove_other f g xs h, eq_iff f x, eq_iff g x, eq_iff f g)

contains-add : (f : String) (fs : List String) → contains_finalizer f (add_finalizer f fs) ≡ true
contains-add f fs = elim (Bool-cases (contains_finalizer f fs)) [
  | inl t ↦ rw t t
  | inr e ↦ rw e (ground (arith, any-append (str_eq f) fs (f ∷ []), eq_iff f f))
]

remove-none :
    (f : String) (fs : List String) → contains_finalizer f fs ≡ false → remove_finalizer f fs ≡ fs
remove-none f [] h = refl
remove-none f (x ∷ xs) h = elim (Bool-cases (str_eq f x)) [
  | inl t ↦ absurd (ground arith)
  | inr e ↦ rw e (λ i. x ∷ remove-none f xs (ground arith) i)
]

-- The present finalizer is there and the old one is not, and ensuring them changes nothing.
pub record IsEnsured (tcp : ControlPlaneObject) : Type 0 where
  pub present : contains_finalizer finalizer tcp.finalizers ≡ true
  pub migrated : contains_finalizer legacy_finalizer tcp.finalizers ≡ false
  pub settled : ensure_finalizers tcp ≡ (tcp, false)

ensured :
    (tcp : ControlPlaneObject)
    → contains_finalizer finalizer tcp.finalizers ≡ true
    → contains_finalizer legacy_finalizer tcp.finalizers ≡ false
    → IsEnsured tcp
unfolding ensure_finalizers
ensured tcp p q = record {
  present = p;
  migrated = q;
  settled =
      rw (p, q, ensure_finalizers)
        (λ i. (record tcp { finalizers = remove-none legacy_finalizer tcp.finalizers q i }, false));
}

-- Once the finalizers are ensured, the present one is there, the old one is not, and ensuring them
-- again changes nothing and says so.
pub ensure_finalizers-IsEnsured : (tcp : ControlPlaneObject) → IsEnsured (ensure_finalizers tcp).0
unfolding ensure_finalizers
ensure_finalizers-IsEnsured tcp =
    let added = add_finalizer finalizer tcp.finalizers in
    ensured (ensure_finalizers tcp).0
      (contains-remove_other finalizer legacy_finalizer added refl
        ∙ contains-add finalizer tcp.finalizers)
      (contains-remove_self legacy_finalizer added)
