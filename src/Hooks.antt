-- ===== src/Hooks.antt =====
-- internal/hooks/tracking.go: the comma-separated annotation that tracks pending hooks, and
-- controllers/inplace.go: what it says of a machine.
pub mod Laws
mod Tests
use cluster_api_control_plan.Base.{
  ℕ, Bool, true, false, ◌&&◌, ◌||◌, not, Option, none, some, List, [], ◌∷◌, ◌++◌, String, any,
  codes, sort_by, compare_string, str_eq, if◌then◌else◌, ◌==◌, lookup, insert, has_key, Error, wrap,
  Ordering,
}
use cluster_api_control_plan.Objects.{Value, Annotations, Machine, Library, plain}
use Prim.Native.Char.{Char, code}
use Prim.Native.String

abbrev is_comma : Char → Bool
is_comma c = code c == b','

-- Puts a character in front of the first of some texts.
abbrev cons_first : Char → List String → List String
cons_first c [] = String.◌∷◌ c "" ∷ []
cons_first c (w ∷ ws) = String.◌∷◌ c w ∷ ws

-- `strings.Split(list, ",")`
unfoldable pub split : String → List String
split String.[] = "" ∷ []
split (String.◌∷◌ c s) = let rest = split s in if is_comma c then "" ∷ rest else cons_first c rest

abbrev append_string : String → String → String
append_string String.[] t = t
append_string (String.◌∷◌ c s) t = String.◌∷◌ c (append_string s t)

-- `strings.Join(words, ",")`
unfoldable pub join : List String → String
join [] = ""
join (w ∷ []) = w
join (w ∷ v ∷ ws) = append_string w (String.◌∷◌ "," (join (v ∷ ws)))

abbrev pub has_word : String → List String → Bool
has_word w = any (str_eq w)

-- A set of texts, kept in the order in which `sets.List` returns it.
unfoldable pub add_word : String → List String → List String
add_word w [] = w ∷ []
add_word w (v ∷ vs) = elim (compare_string w v) [
  | Ordering.lt ↦ w ∷ v ∷ vs
  | Ordering.eq ↦ v ∷ vs
  | Ordering.gt ↦ v ∷ add_word w vs
]

unfoldable pub add_words : List String → List String → List String
unfolding add_word
add_words [] set = set
add_words (w ∷ ws) set = add_words ws (add_word w set)

unfoldable pub words_of : String → List String
unfolding split
words_of list = if str_eq list "" then [] else split list

unfoldable pub add_to_list : String → List String → String
unfolding join add_words words_of
add_to_list list items = join (add_words items (add_words (words_of list) []))

unfoldable pub is_in_list : String → String → Bool
unfolding split
is_in_list list item = if str_eq list "" then false else has_word item (split list)

-- The annotation's text: empty where it is missing. The text of a value that is read as a time or
-- as remediation data has no use as a list.
unfoldable pub text_of : Option Value → String
text_of (some (plain s)) = s
text_of _ = ""

module _ (lib : Library) where
  unfoldable pub is_pending : String → Annotations → Bool
  unfolding is_in_list text_of
  is_pending hook annotations = is_in_list (text_of (lookup lib.pending_hooks annotations)) hook

  -- What the annotation becomes, and whether it changes.
  abbrev pub marked_list : List String → Annotations → String
  marked_list hooks annotations = add_to_list (text_of (lookup lib.pending_hooks annotations)) hooks

  unfoldable pub is_marked : List String → Annotations → Bool
  unfolding add_to_list text_of
  is_marked hooks annotations =
      str_eq (text_of (lookup lib.pending_hooks annotations)) (marked_list hooks annotations)

  -- The new annotations and the error: nothing is patched where nothing changes. A failed patch
  -- leaves the object in memory changed.
  unfoldable pub mark_as_pending :
      Option Error → List String → Annotations → Annotations × Option Error
  unfolding is_marked
  mark_as_pending failure hooks annotations =
      if is_marked hooks annotations
      then (annotations, none)
      else (insert lib.pending_hooks (plain (marked_list hooks annotations)) annotations, failure)

  unfoldable pub is_updating_in_place : Machine → Bool
  unfolding is_pending
  is_updating_in_place m =
      has_key lib.update_in_progress m.annotations || is_pending lib.update_machine m.annotations
