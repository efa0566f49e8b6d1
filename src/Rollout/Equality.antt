-- ===== src/Rollout/Equality.antt =====
-- reflect.DeepEqual of two TalosConfigSpecs, which tells a nil slice from an empty one.
use cluster_api_control_plan.Base.{
  Bool, true, false, ◌&&◌, Option, none, some, List, [], ◌∷◌, String, str_eq, eq_iff, ◌≡◌, refl,
  arith,
}
use cluster_api_control_plan.Objects.{TalosConfigSpec}

-- A test that holds of equal values, and of no others.
pub record Tells {A : Type 0} (eq : A → A → Bool) : Type 0 where
  pub same : (a : A) → eq a a ≡ true
  pub equal : (a b : A) → eq a b ≡ true → a ≡ b

module _ {A : Type 0} where
  abbrev pub option_eq : (A → A → Bool) → Option A → Option A → Bool
  option_eq eq none none = true
  option_eq eq none (some b) = false
  option_eq eq (some a) none = false
  option_eq eq (some a) (some b) = eq a b

  abbrev pub list_eq : (A → A → Bool) → List A → List A → Bool
  list_eq eq [] [] = true
  list_eq eq [] (b ∷ bs) = false
  list_eq eq (a ∷ as') [] = false
  list_eq eq (a ∷ as') (b ∷ bs) = eq a b && list_eq eq as' bs

  option_eq-same : {eq : A → A → Bool} → Tells eq → (a : Option A) → option_eq eq a a ≡ true
  option_eq-same t none = refl
  option_eq-same t (some a) = t.same a

  option_eq-equal :
      {eq : A → A → Bool} → Tells eq → (a b : Option A) → option_eq eq a b ≡ true → a ≡ b
  option_eq-equal t none none h = refl
  option_eq-equal t none (some b) h = cc
  option_eq-equal t (some a) none h = cc
  option_eq-equal t (some a) (some b) h = cc (t.equal a b h)

  list_eq-same : {eq : A → A → Bool} → Tells eq → (a : List A) → list_eq eq a a ≡ true
  list_eq-same t [] = refl
  list_eq-same t (a ∷ rest) = ground (arith, t.same a, list_eq-same t rest)

  list_eq-equal : {eq : A → A → Bool} → Tells eq → (a b : List A) → list_eq eq a b ≡ true → a ≡ b
  list_eq-equal t [] [] h = refl
  list_eq-equal t [] (b ∷ bs) h = cc
  list_eq-equal t (a ∷ rest) [] h = cc
  list_eq-equal t (a ∷ rest) (b ∷ bs) h = ground (arith, t.equal a b, list_eq-equal t rest bs)

  pub option_eq-Tells : {eq : A → A → Bool} → Tells eq → Tells (option_eq eq)
  option_eq-Tells t = record { same = option_eq-same t; equal = option_eq-equal t }

  pub list_eq-Tells : {eq : A → A → Bool} → Tells eq → Tells (list_eq eq)
  list_eq-Tells t = record { same = list_eq-same t; equal = list_eq-equal t }

pub str_eq-Tells : Tells str_eq
str_eq-Tells = record { same = λ a. (eq_iff a a).1 refl; equal = λ a b. (eq_iff a b).0 }

-- A patch of a configuration: operation, path and value.
abbrev pub patch_eq : String × String × String → String × String × String → Bool
patch_eq (o, p, v) (o', p', v') = str_eq o o' && str_eq p p' && str_eq v v'

patch_eq-Tells : Tells patch_eq
patch_eq-Tells = record {
  same = λ (o, p, v). ground (arith, eq_iff o o, eq_iff p p, eq_iff v v);
  equal = λ (o, p, v) (o', p', v') h. ground (arith, eq_iff o o', eq_iff p p', eq_iff v v');
}

unfoldable pub deep_equal : TalosConfigSpec → TalosConfigSpec → Bool
deep_equal a b =
    str_eq a.talos_version b.talos_version
    && str_eq a.generate_type b.generate_type
    && str_eq a.config b.config
    && option_eq (list_eq patch_eq) a.config_patches b.config_patches
    && option_eq (list_eq str_eq) a.strategic_patches b.strategic_patches
    && str_eq a.hostname_source b.hostname_source
    && option_eq str_eq a.image_factory b.image_factory

abbrev patches_Tells : Tells (option_eq (list_eq patch_eq))
patches_Tells = option_eq-Tells (list_eq-Tells patch_eq-Tells)

abbrev texts_Tells : Tells (option_eq (list_eq str_eq))
texts_Tells = option_eq-Tells (list_eq-Tells str_eq-Tells)

pub deep_equal-Tells : Tells deep_equal
unfolding deep_equal
deep_equal-Tells = record {
  same = λ a. ground (
    arith,
    str_eq-Tells.same a.talos_version,
    str_eq-Tells.same a.generate_type,
    str_eq-Tells.same a.config,
    patches_Tells.same a.config_patches,
    texts_Tells.same a.strategic_patches,
    str_eq-Tells.same a.hostname_source,
    (option_eq-Tells str_eq-Tells).same a.image_factory,
  );
  equal = λ a b h. ground (
    arith,
    eq_iff a.talos_version b.talos_version,
    eq_iff a.generate_type b.generate_type,
    eq_iff a.config b.config,
    patches_Tells.equal a.config_patches b.config_patches,
    texts_Tells.equal a.strategic_patches b.strategic_patches,
    eq_iff a.hostname_source b.hostname_source,
    (option_eq-Tells str_eq-Tells).equal a.image_factory b.image_factory,
  );
}
