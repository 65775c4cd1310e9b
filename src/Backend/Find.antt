-- ===== src/Backend/Find.antt =====
-- What `backend_find` and `backend_acquire` of core/backend.c find.
use frozen.Base.{
  ap₂, ℕ, zero, suc, ◌≤◌, ◌<◌, ◌≡◌, ◌≢◌, refl, sym, ap, ◌∙◌, Bool, true, false, ◌&&◌, Bool-cases,
  inl, inr, Option, none, some, List, [], ◌∷◌, ◌==◌, if◌then◌else◌, arith, length,
}
use frozen.ItemList.{Cell, ItemList, iter_start, list_iter_next}
use frozen.ItemList.View.{live, IsList, IsEnded, view}
use frozen.ItemList.Walk.{iter_next_lem}
use frozen.ItemList.Count.{hit, count}
use frozen.Backend.{Graph, named, is_some}
use frozen.Backend.Linked.{name_links, IsLinked}
use frozen.Backend.Connect.{one_if-true}
use frozen.Backend.Registry.{same_string, find_loop, has_name, backend_find}

-- The first element that the test holds of.
abbrev pub first_of : (ℕ → Bool) → List ℕ → Option ℕ
first_of test [] = none
first_of test (p ∷ ps) = if test p then some p else first_of test ps

some_if : (t : Bool) (a b : Option ℕ) → (if t then some a else some b) ≡ some (if t then a else b)
some_if true a b = refl
some_if false a b = refl

find_loop-cells :
    (test : ℕ → Bool) (check : ℕ → Option Bool) (fuel : ℕ) (l : ItemList)
    (iter : Option (List Cell)) (cells : List Cell)
    → iter_start l iter ≡ some cells
    → IsEnded cells
    → length (live cells) < fuel
    → ((p : ℕ) → 1 ≤ count p (live cells) → check p ≡ some (test p))
    → find_loop check fuel l iter ≡ some (first_of test (live cells))
unfolding find_loop
find_loop-cells test check zero l iter cells start e h checks = absurd (omega arith)
find_loop-cells test check (suc fuel) l iter cells start e h checks =
    elim (iter_next_lem l iter cells start e) [
      | inl (eq, lv) ↦ rw (eq, lv, find_loop)
      | inr (p, rest, eq, ended, lv) ↦
          let n : length (live rest) < fuel = omega (arith, ap (length {A = ℕ}) lv) in
          let here : 1 ≤ count p (live cells) =
            (let c : count p (live cells) ≡ count p (p ∷ live rest) = ap (count p) lv in
              let one : hit p p ≡ 1 = ground arith in omega (arith, c, one)) in
          let ih =
            find_loop-cells test check fuel l (some rest) rest refl ended n
              (λ q in_rest. checks q (omega (arith, in_rest, ap (count q) lv))) in
          rw (eq, lv, checks p here, ih, find_loop)
            (some_if (test p) (some p) (first_of test (live rest)))
    ]

-- The loop over a list finds the first item of the test.
pub find_loop-first :
    (test : ℕ → Bool) (check : ℕ → Option Bool) (fuel : ℕ) (l : ItemList)
    → IsList l
    → length (view l) < fuel
    → ((p : ℕ) → 1 ≤ count p (view l) → check p ≡ some (test p))
    → find_loop check fuel l none ≡ some (first_of test (view l))
unfolding find_loop list_iter_next
find_loop-first test check fuel l = go fuel l.items
  where
    go :
        (fuel : ℕ) (items : Option (List Cell))
        → let l : ItemList = record { items = items } in
          IsList l
          → length (view l) < fuel
          → ((p : ℕ) → 1 ≤ count p (view l) → check p ≡ some (test p))
          → find_loop check fuel l none ≡ some (first_of test (view l))
    go zero items h n checks = absurd (omega arith)
    go (suc fuel) none h n checks = refl
    go (suc fuel) (some cells) h n checks =
        find_loop-cells test check (suc fuel) _ none cells refl h n checks

-- What a search of a test in a list comes to.
pub data IsFirst (test : ℕ → Bool) (xs : List ℕ) : Option ℕ → Type 0 where
  is_found : (p : ℕ) → 1 ≤ count p xs → test p ≡ true → IsFirst test xs (some p)
  is_missing : ((p : ℕ) → 1 ≤ count p xs → test p ≡ false) → IsFirst test xs none

first_of-IsFirst : (test : ℕ → Bool) (xs : List ℕ) → IsFirst test xs (first_of test xs)
first_of-IsFirst test [] = is_missing (λ p h. absurd (omega arith))
first_of-IsFirst test (x ∷ xs) = elim (Bool-cases (test x)) [
  | inl holds ↦ rw holds (is_found x (ground arith) holds)
  | inr fails ↦ rw fails (cons_missed (first_of test xs) fails (first_of-IsFirst test xs))
]
  where
    cons_missed : (r : Option ℕ) → test x ≡ false → IsFirst test xs r → IsFirst test (x ∷ xs) r
    cons_missed _ fails (is_found p h t) = is_found p (omega arith) t
    cons_missed none fails (is_missing all) = is_missing (λ p h. elim (Bool-cases (p == x)) [
      | inl same ↦ let e : p ≡ x = ground arith in ap test e ∙ fails
      | inr other ↦ all p (let off : hit x p ≡ 0 = ground arith in omega (arith, off, h))
    ])

same_string-eq : (a b : List ℕ) → same_string a b ≡ true → a ≡ b
same_string-eq [] [] h = refl
same_string-eq [] (b ∷ bs) h = absurd (cc h)
same_string-eq (a ∷ s) [] h = absurd (cc h)
same_string-eq (a ∷ s) (b ∷ t) h = elim (Bool-cases (a == b)) [
  | inl same ↦
      let e : a ≡ b = ground arith in
      let tails : same_string s t ≡ true = sym (rw same) ∙ h in
      ap₂ (λ x xs. x ∷ xs) e (same_string-eq s t tails)
  | inr other ↦ absurd (let both : true ≡ false = sym h ∙ rw other in cc both)
]

same_string_refl : (a : List ℕ) → same_string a a ≡ true
same_string_refl [] = refl
same_string_refl (x ∷ xs) =
    let here : (x == x) ≡ true = ground arith in rw here (same_string_refl xs)

-- A backend that is not freed and has this name, or none if there is no such backend.
pub data IsNamed (g : Graph) (name : List ℕ) : Option ℕ → Type 0 where
  named_one : (b : ℕ) → g.live b ≡ true → g.name b ≡ some name → IsNamed g name (some b)
  named_none : ((b : ℕ) → g.live b ≡ true → g.name b ≢ some name) → IsNamed g name none

abbrev name_test : Graph → List ℕ → ℕ → Bool
name_test g name b = elim (g.name b) [ none ↦ false | some s ↦ same_string s name ]

-- A name in the list is that of a backend that is not freed.
listed_live : (g : Graph) (p : ℕ) → IsLinked g → 1 ≤ name_links g p → g.live p ≡ true
listed_live g p h listed =
    let both : (g.live p && named g p) ≡ true =
      one_if-true _ (omega (arith, h.in_names p, listed)) in
    and_left (g.live p) (named g p) both
  where
    and_left : (a b : Bool) → (a && b) ≡ true → a ≡ true
    and_left true b e = refl
    and_left false b e = absurd (cc e)

has_name-test :
    (g : Graph) (name : List ℕ) (p : ℕ)
    → IsLinked g
    → 1 ≤ name_links g p
    → has_name g name p ≡ some (name_test g name p)
unfolding has_name
has_name-test g name p h listed = rw (listed_live g p h listed) (go (g.name p))
  where
    go :
        (n : Option (List ℕ))
        → (elim n [ none ↦ some false | some s ↦ some (same_string s name) ])
          ≡ some (elim n [ none ↦ false | some s ↦ same_string s name ])
    go none = refl
    go (some s) = refl

name_test-eq :
    (name : List ℕ) (n : Option (List ℕ))
    → (elim n [ none ↦ false | some s ↦ same_string s name ]) ≡ true
    → n ≡ some name
name_test-eq name none e = absurd (cc e)
name_test-eq name (some s) e = ap some (same_string-eq s name e)

first-IsNamed :
    (g : Graph) (name : List ℕ) (r : Option ℕ)
    → IsLinked g
    → IsFirst (name_test g name) (view g.backends_names) r
    → IsNamed g name r
first-IsNamed g name _ h (is_found p listed holds) =
    named_one p (listed_live g p h listed) (name_test-eq name (g.name p) holds)
first-IsNamed g name _ h (is_missing all) = named_none (λ b alive same.
    let has : named g b ≡ true = ap is_some same in
    let listed : name_links g b ≡ 1 = h.in_names b ∙ rw (alive, has) in
    let holds : name_test g name b ≡ true =
      ap (λ n. elim n [ none ↦ false | some s ↦ same_string s name ]) same
      ∙ same_string_refl name in
    let both : true ≡ false = sym holds ∙ all b (omega (arith, listed)) in absurd (cc both))

-- On a linked graph, with more fuel than there are names, `backend_find` ends and finds a backend that
-- is not freed and has the name, or NULL if there is no such backend.
pub backend_find-IsNamed :
    (fuel : ℕ) (name : List ℕ) (g : Graph)
    → IsLinked g
    → length (view g.backends_names) < fuel
    → (r : Option ℕ) × (backend_find fuel (some name) g ≡ some r) × IsNamed g name r
unfolding backend_find
backend_find-IsNamed fuel name g h enough =
    let names = view g.backends_names in
    (
      first_of (name_test g name) names,
      find_loop-first (name_test g name) (has_name g name) fuel g.backends_names h.built.names_ended
          enough (λ p listed. has_name-test g name p h listed),
      first-IsNamed g name _ h (first_of-IsFirst (name_test g name) names),
    )
