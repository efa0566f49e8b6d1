-- ===== src/Preflight/Nodes/Laws.antt =====
-- When the health check of a node passes.
use cluster_api_control_plan.Base.{
  ◌≡◌, ◌↔◌, inl, inr, Bool, true, false, ◌||◌, none, List, [], ◌∷◌, String, any, All, arith, refl,
  Bool-cases, Option-cases,
}
use cluster_api_control_plan.Preflight.Nodes.{
  StaticPodStatus, runs_component, component_error, control_plane_components_error,
}

-- Some pod runs the component, and all pods that do are ready.
abbrev pub IsUp : List StaticPodStatus → String → Type 0
IsUp pods component =
    (any (runs_component component) pods ≡ true)
    × All (λ (p : StaticPodStatus). runs_component component p ≡ true → p.ready ≡ true) pods

component_error_iff :
    (component : String) (found : Bool) (pods : List StaticPodStatus)
    → (component_error component found pods ≡ none)
      ↔ ((found || any (runs_component component) pods) ≡ true)
        × All (λ (p : StaticPodStatus). runs_component component p ≡ true → p.ready ≡ true) pods
unfolding component_error
component_error_iff component true [] = (λ _. (refl, tt), λ _. refl)
component_error_iff component false [] = (λ h. absurd (cc), λ (h, _). absurd (cc))
component_error_iff component found (p ∷ ps) =
    let (f, g) = component_error_iff component found ps in
    let (f', g') = component_error_iff component true ps in
    elim (Bool-cases (runs_component component p)) [
      | inr r ↦ ground arith
      | inl r ↦ elim (Bool-cases p.ready) [ inr n ↦ ground arith | inl y ↦ ground arith ]
    ]

-- The components have no error exactly if each of them is run by some static pod, and each static
-- pod that runs one is ready.
pub control_plane_components_error_iff :
    (components : List String) (pods : List StaticPodStatus)
    → (control_plane_components_error components pods ≡ none) ↔ All (IsUp pods) components
unfolding control_plane_components_error
control_plane_components_error_iff [] pods = (λ _. tt, λ _. refl)
control_plane_components_error_iff (c ∷ cs) pods =
    let (f, g) = component_error_iff c false pods in
    let (f', g') = control_plane_components_error_iff cs pods in
    elim (Option-cases (component_error c false pods)) [
      | inl e ↦ (λ h. (f e, f' (ground arith)), λ (a, b). let r = g' b in ground arith)
      | inr (w, e) ↦ (λ h. absurd (ground arith), λ (a, b). let r = g a in absurd (ground arith))
    ]
