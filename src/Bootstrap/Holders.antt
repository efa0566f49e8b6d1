-- ===== src/Bootstrap/Holders.antt =====
-- What the search for etcd data among the machines tells.
use cluster_api_control_plan.Base.{
  ◌≡◌, inl, inr, Bool, true, false, Option, none, some, List, [], ◌∷◌, In, All, refl, Error, Result,
  ok, err,
}
use cluster_api_control_plan.Objects.{Machine}
use cluster_api_control_plan.Bootstrap.{Nodes, note_answer, etcd_data_holder_among}

module _ (nodes : Nodes) where
  -- A machine that is found holds etcd data; none is found without an error only if all machines
  -- answered that they hold none.
  abbrev pub Found : List Machine → Option Machine × Option Error → Type 0
  Found ms (some m, e) = In m ms × (nodes.has_etcd_data m ≡ ok true) × (e ≡ none)
  Found ms (none, none) = All (λ m. nodes.has_etcd_data m ≡ ok false) ms
  Found ms (none, some e) = Unit

  note_answer-Found :
      (m : Machine) (ms : List Machine) (a : Result Bool) (r : Option Machine × Option Error)
      → nodes.has_etcd_data m ≡ a
      → Found ms r
      → Found (m ∷ ms) (note_answer m a r)
  note_answer-Found m ms (err why) (some x, e) h (n, holds, p) = (inr n, holds, refl)
  note_answer-Found m ms (err why) (none, none) h f = tt
  note_answer-Found m ms (err why) (none, some e) h f = tt
  note_answer-Found m ms (ok true) r h f = (inl refl, h, refl)
  note_answer-Found m ms (ok false) (some x, e) h (n, holds, p) = (inr n, holds, p)
  note_answer-Found m ms (ok false) (none, none) h f = (h, f)
  note_answer-Found m ms (ok false) (none, some e) h f = tt

  pub etcd_data_holder_among-Found :
      (ms : List Machine) → Found ms (etcd_data_holder_among nodes ms)
  unfolding etcd_data_holder_among
  etcd_data_holder_among-Found [] = tt
  etcd_data_holder_among-Found (m ∷ ms) =
      note_answer-Found m ms (nodes.has_etcd_data m) (etcd_data_holder_among nodes ms) refl
        (etcd_data_holder_among-Found ms)
