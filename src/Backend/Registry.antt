-- ===== src/Backend/Registry.antt =====
-- src/libfrozen/core/backend.c: the classes and the names of backends. A string is the list of its
-- characters before the NUL. A loop over a list is on fuel; `none` is a fault or a loop without end.
use frozen.Base.{
  ℕ, zero, suc, Bool, true, false, Option, none, some, List, [], ◌∷◌, ◌==◌, ◌&&◌, if◌then◌else◌,
  Result, ok, err, einval,
}
use frozen.ItemList.{Cell, item, ItemList, list_add, list_delete, list_iter_next}
use frozen.Backend.{Graph, backend_ref_inc}

-- `strcmp(a, b) == 0`.
abbrev pub same_string : List ℕ → List ℕ → Bool
same_string [] [] = true
same_string (a ∷ as') (b ∷ bs) = (a == b) && same_string as' bs
same_string _ _ = false

-- `strchr(s, c) + 1`.
abbrev pub after_char : List ℕ → ℕ → Option (List ℕ)
after_char [] c = none
after_char (a ∷ s) c = if a == c then some s else after_char s c

-- The name in a class, behind its first '/' or else its first '.'.
unfoldable pub class_name : List ℕ → Option (List ℕ)
class_name class = elim (after_char class 47) [ some name ↦ some name | none ↦ after_char class 46 ]

-- `class_strcmp(..) == 0`.
unfoldable pub class_strcmp : List ℕ → List ℕ → Bool
unfolding class_name
class_strcmp class_str1 class_str2 = elim (class_name class_str1) [
  | some name1 ↦ elim (class_name class_str2) [
    | some name2 ↦ same_string class_str1 class_str2
    | none ↦ same_string name1 class_str2
  ]
  | none ↦ elim (class_name class_str2) [
    | some name2 ↦ same_string class_str1 name2
    | none ↦ same_string class_str1 class_str2
  ]
]

-- The loop `while( (backend = list_iter_next(&list, &list_status)) != NULL)` up to the first backend
-- that the test holds of; the test is `none` where it faults.
unfoldable pub find_loop : (ℕ → Option Bool) → ℕ → ItemList → Option (List Cell) → Option (Option ℕ)
find_loop test zero l iter = none
find_loop test (suc fuel) l iter = elim (list_iter_next l iter) [
  | none ↦ none
  | some (none, iter') ↦ some none
  | some (some b, iter') ↦
      let rest = find_loop test fuel l iter' in
      elim (test b) [ none ↦ none | some found ↦ if found then some (some b) else rest ]
]

-- The loop over `backend_protos`.
unfoldable pub find_proto : (ℕ → Bool) → List ℕ → Option ℕ
find_proto test [] = none
find_proto test (p ∷ ps) = if test p then some p else find_proto test ps

-- `class_of` is the field `class` of a prototype.
module _ (class_of : ℕ → Option (List ℕ)) where
  unfoldable pub has_class : List ℕ → ℕ → Bool
  unfolding class_strcmp
  has_class class p = elim (class_of p) [ none ↦ false | some c ↦ class_strcmp c class ]

  unfoldable pub class_find : List ℕ → ItemList → ℕ → List ℕ → Option (Option ℕ)
  unfolding find_proto has_class find_loop
  class_find backend_protos classes fuel class =
      elim (find_proto (has_class class) backend_protos) [
        | some p ↦ some (some p)
        | none ↦ find_loop (λ p. some (has_class class p)) fuel classes none
      ]

  unfoldable pub class_register : Cell → ℕ → ItemList → Option (Result ℕ × ItemList)
  class_register junk proto classes = elim (class_of proto) [
    | none ↦ some (err einval, classes)
    | some c ↦ elim (list_add junk classes (item proto)) [ none ↦ none | some l ↦ some (ok 0, l) ]
  ]

unfoldable pub class_unregister : ℕ → ItemList → Option ItemList
class_unregister proto classes = list_delete classes (item proto)

-- The test of `backend_find`.
unfoldable pub has_name : Graph → List ℕ → ℕ → Option Bool
has_name g name b =
    if g.live b
    then elim (g.name b) [ none ↦ some false | some s ↦ some (same_string s name) ]
    else none

unfoldable pub backend_find : ℕ → Option (List ℕ) → Graph → Option (Option ℕ)
unfolding find_loop has_name
backend_find fuel none g = some none
backend_find fuel (some name) g = find_loop (has_name g name) fuel g.backends_names none

unfoldable pub backend_acquire : ℕ → Option (List ℕ) → Graph → Option (Option ℕ × Graph)
unfolding backend_find backend_ref_inc
backend_acquire fuel name g = elim (backend_find fuel name g) [
  | none ↦ none
  | some none ↦ some (none, g)
  | some (some b) ↦ elim (backend_ref_inc b g) [ none ↦ none | some g' ↦ some (some b, g') ]
]
