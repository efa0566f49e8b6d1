-- ===== src/Hooks/Laws.antt =====
-- The annotation's text is a set of words: what is added is in it, with all that was in it.
use cluster_api_control_plan.Base.{
  ◌≡◌, inl, inr, Bool, true, false, ◌&&◌, ◌||◌, not, List, [], ◌∷◌, All, String, str_eq, eq_iff,
  arith, refl, sym, ap, ◌∙◌, compare_string-eq, Bool-cases, Error, Option, lookup, lookup-insert,
}
use cluster_api_control_plan.Objects.{Library, Annotations, plain}
use cluster_api_control_plan.Hooks.{
  is_comma, cons_first, split, append_string, join, has_word, add_word, add_words, words_of,
  add_to_list, is_in_list, text_of, is_pending, is_marked, mark_as_pending,
}
use Prim.Native.Char.{Char}

-- A text without a comma.
abbrev pub no_comma : String → Bool
no_comma String.[] = true
no_comma (String.◌∷◌ c s) = not (is_comma c) && no_comma s

abbrev pub AreWords : List String → Type 0
AreWords = All (λ w. no_comma w ≡ true)

cons_first-AreWords :
    (c : Char) (ws : List String) → is_comma c ≡ false → AreWords ws → AreWords (cons_first c ws)
cons_first-AreWords c [] h a = (ground arith, tt)
cons_first-AreWords c (w ∷ ws) h a = (ground arith, a.1)

split-AreWords : (s : String) → AreWords (split s)
unfolding split
split-AreWords String.[] = (refl, tt)
split-AreWords (String.◌∷◌ c s) = elim (Bool-cases (is_comma c)) [
  | inl t ↦ rw t (refl, split-AreWords s)
  | inr f ↦ rw f (cons_first-AreWords c (split s) f (split-AreWords s))
]

split-no_comma : (w : String) → no_comma w ≡ true → split w ≡ w ∷ []
unfolding split
split-no_comma String.[] h = refl
split-no_comma (String.◌∷◌ c s) h = ground (arith, split-no_comma s)

split-append :
    (w rest : String)
    → no_comma w ≡ true
    → split (append_string w (String.◌∷◌ "," rest)) ≡ w ∷ split rest
unfolding split
split-append String.[] rest h = refl
split-append (String.◌∷◌ c s) rest h = ground (arith, split-append s rest)

-- Splitting undoes joining.
pub split-join :
    (w : String) (ws : List String) → AreWords (w ∷ ws) → split (join (w ∷ ws)) ≡ w ∷ ws
unfolding join
split-join w [] a = split-no_comma w a.0
split-join w (v ∷ ws) a = split-append w (join (v ∷ ws)) a.0 ∙ ap (◌∷◌ w) (split-join v ws a.1)

add_word-AreWords :
    (w : String) (set : List String) → no_comma w ≡ true → AreWords set → AreWords (add_word w set)
unfolding add_word
add_word-AreWords w [] h a = (h, tt)
add_word-AreWords w (v ∷ vs) h a = ground (arith, add_word-AreWords w vs h a.1)

add_words-AreWords :
    (ws set : List String) → AreWords ws → AreWords set → AreWords (add_words ws set)
unfolding add_words
add_words-AreWords [] set a b = b
add_words-AreWords (w ∷ ws) set a b =
    add_words-AreWords ws (add_word w set) a.1 (add_word-AreWords w set a.0 b)

has_word-add_word :
    (x w : String) (set : List String)
    → has_word x (add_word w set) ≡ (str_eq x w || has_word x set)
unfolding add_word
has_word-add_word x w [] = refl
has_word-add_word x w (v ∷ vs) =
    ground (arith, eq_iff x w, eq_iff x v, compare_string-eq w v, has_word-add_word x w vs)

has_word-add_words :
    (x : String) (ws set : List String)
    → has_word x (add_words ws set) ≡ (has_word x ws || has_word x set)
unfolding add_words
has_word-add_words x [] set = refl
has_word-add_words x (w ∷ ws) set =
    ground (arith, has_word-add_words x ws (add_word w set), has_word-add_word x w set)

words_of-AreWords : (list : String) → AreWords (words_of list)
unfolding words_of
words_of-AreWords list = ground (arith, split-AreWords list)

is_in_list-join :
    (x : String) (set : List String)
    → AreWords set
    → str_eq x "" ≡ false
    → is_in_list (join set) x ≡ has_word x set
unfolding is_in_list
is_in_list-join x [] a h = unfold join in refl
is_in_list-join x (w ∷ ws) a h = elim (Bool-cases (str_eq (join (w ∷ ws)) "")) [
  | inl t ↦
      let empty = (eq_iff (join (w ∷ ws)) "").0 t in
      let one : "" ∷ [] ≡ w ∷ ws = sym (split-empty) ∙ ap split (sym empty) ∙ split-join w ws a in
      rw t (sym (ap (has_word x) (sym one) ∙ only_empty h))
  | inr f ↦ rw f (ap (has_word x) (split-join w ws a))
]
  where
    split-empty : split "" ≡ "" ∷ []
    split-empty = unfold split in refl

    only_empty : str_eq x "" ≡ false → has_word x ("" ∷ []) ≡ false
    only_empty h = ground arith

is_in_list-words_of : (x list : String) → is_in_list list x ≡ has_word x (words_of list)
unfolding is_in_list words_of
is_in_list-words_of x list = ground arith

-- The words of the new list are those that are added and those of the old one, for added words
-- without a comma and a word that is not empty.
pub is_in_list-add_to_list :
    (list : String) (items : List String) (x : String)
    → AreWords items
    → str_eq x "" ≡ false
    → is_in_list (add_to_list list items) x ≡ (has_word x items || is_in_list list x)
unfolding add_to_list
is_in_list-add_to_list list items x a h =
    let old = add_words (words_of list) [] in
    let words = add_words-AreWords (words_of list) [] (words_of-AreWords list) tt in
    ground (
      arith,
      is_in_list-join x (add_words items old) (add_words-AreWords items old a words) h,
      has_word-add_words x items old,
      has_word-add_words x (words_of list) [],
      is_in_list-words_of x list,
    )

-- After a hook is marked as pending it is pending, and so is every hook that was pending before,
-- for hook names that are not empty and have no comma.
pub mark_as_pending-is_pending :
    (lib : Library) (failure : Option Error) (hooks : List String) (annotations : Annotations)
    (x : String)
    → AreWords hooks
    → str_eq x "" ≡ false
    → is_pending lib x (mark_as_pending lib failure hooks annotations).0
      ≡ (has_word x hooks || is_pending lib x annotations)
unfolding mark_as_pending is_marked is_pending
mark_as_pending-is_pending lib failure hooks annotations x a h =
    let old = text_of (lookup lib.pending_hooks annotations) in
    ground (
      arith,
      is_in_list-add_to_list old hooks x a h,
      eq_iff old (add_to_list old hooks),
      lookup-insert lib.pending_hooks lib.pending_hooks (plain (add_to_list old hooks)) annotations,
      eq_iff lib.pending_hooks lib.pending_hooks,
    )
