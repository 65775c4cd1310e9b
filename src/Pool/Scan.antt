-- ===== src/Pool/Scan.antt =====
-- The pass over a group: its sum, and what the methods choose.
use frozen.Base.{
  ℕ, suc, ◌+◌, ◌<◌, ◌≡◌, ◌≢◌, refl, ◌⊎◌, inl, inr, Bool, false, none, some, List, [], ◌∷◌, ◌++◌,
  arith, ltb, ◌==◌, if◌then◌else◌, length, get_elem?, add64, Bool-cases, ap, ◌∙◌, if-intro,
}
use frozen.Pool.{
  Method, method_random, method_first, method_last, method_highest, method_lowest, Member, Best,
  kill_check, Found, nothing_found, look_at, look_from, index_of, choose,
}

-- The sum of the parameters that are not 0, from `acc` on.
unfoldable pub total : ℕ → List Member → ℕ
total acc [] = acc
total acc (m ∷ members) =
    total (if m.usage_parameter == 0 then acc else add64 acc m.usage_parameter) members

-- The best of the members that have a parameter, by one comparison.
pub best_from : (Member → Member → Bool) → ℕ → List Member → Best → Best
best_from better i [] b = b
best_from better i (m ∷ members) b =
    best_from better (suc i) members (if m.usage_parameter == 0 then b else kill_check better b i m)

look_at-sum :
    (i : ℕ) (m : Member) (f : Found)
    → (look_at i m f).parameter_group ≡ (
        if m.usage_parameter == 0
        then f.parameter_group
        else add64 f.parameter_group m.usage_parameter)
unfolding look_at
look_at-sum i m f = elim (Bool-cases (m.usage_parameter == 0)) [
  | inl idle ↦ rw idle
  | inr busy ↦ rw busy
]

pub look_from-total :
    (i : ℕ) (members : List Member) (f : Found)
    → (look_from i members f).parameter_group ≡ total f.parameter_group members
unfolding look_from total
look_from-total i [] f = refl
look_from-total i (m ∷ members) f =
    look_from-total (suc i) members (look_at i m f)
    ∙ ap (λ acc. total acc members) (look_at-sum i m f)

-- What a method but the random one compares, and its choice.
abbrev pub better_of : Method → Member → Member → Bool
better_of method_random a b = false
better_of method_first a b = ltb a.created_on b.created_on
better_of method_last a b = ltb b.created_on a.created_on
better_of method_highest a b = ltb b.usage_parameter a.usage_parameter
better_of method_lowest a b = ltb a.usage_parameter b.usage_parameter

abbrev pub best_of : Method → Found → Best
best_of method_random f = none
best_of method_first f = f.backend_first
best_of method_last f = f.backend_last
best_of method_highest f = f.backend_high
best_of method_lowest f = f.backend_low

look_from-best :
    (mode : Method) (i : ℕ) (members : List Member) (f : Found)
    → mode ≢ method_random
    → best_of mode (look_from i members f) ≡ best_from (better_of mode) i members (best_of mode f)
unfolding look_from look_at best_from
look_from-best mode i [] f n = refl
look_from-best mode i (m ∷ members) f n = elim (Bool-cases (m.usage_parameter == 0)) [
  | inl idle ↦ rw idle (look_from-best mode (suc i) members f n)
  | inr busy ↦ rw busy (
      look_from-best mode (suc i) members _ n
      ∙ ap (best_from (better_of mode) (suc i) members) (one mode n))
]
  where
    one :
        (mode : Method)
        → mode ≢ method_random
        → best_of mode (record {
          parameter_group = add64 f.parameter_group m.usage_parameter;
          backend_first = kill_check (λ a b. ltb a.created_on b.created_on) f.backend_first i m;
          backend_last = kill_check (λ a b. ltb b.created_on a.created_on) f.backend_last i m;
          backend_low =
              kill_check (λ a b. ltb a.usage_parameter b.usage_parameter) f.backend_low i m;
          backend_high =
              kill_check (λ a b. ltb b.usage_parameter a.usage_parameter) f.backend_high i m;
        })
          ≡ kill_check (better_of mode) (best_of mode f) i m
    one method_random n = absurd (n refl)
    one method_first n = refl
    one method_last n = refl
    one method_highest n = refl
    one method_lowest n = refl

choose-best :
    (mode : Method) (r lsz : ℕ) (f : Found)
    → mode ≢ method_random
    → choose mode r lsz f ≡ index_of (best_of mode f)
unfolding choose
choose-best method_random r lsz f n = absurd (n refl)
choose-best method_first r lsz f n = refl
choose-best method_last r lsz f n = refl
choose-best method_highest r lsz f n = refl
choose-best method_lowest r lsz f n = refl

-- The best of a group is one of its members with a parameter; there is none only if no member has one.
pub data Chosen (all : List Member) : Best → Type 0 where
  nobody : Chosen all none
  somebody :
      (i : ℕ) (m : Member)
      → get_elem? all i ≡ some m
      → 0 < m.usage_parameter
      → Chosen all (some (i, m))

kill_check-Chosen :
    (all : List Member) (better : Member → Member → Bool) (b : Best) (i : ℕ) (m : Member)
    → get_elem? all i ≡ some m
    → 0 < m.usage_parameter
    → Chosen all b
    → Chosen all (kill_check better b i m)
kill_check-Chosen all better none i m e p c = somebody i m e p
kill_check-Chosen all better (some (j, best)) i m e p c =
    if-intro (Chosen all) (better m best) (λ _. somebody i m e p) (λ _. c)

get_elem?-append :
    (front : List Member) (m : Member) (back : List Member)
    → get_elem? (front ++ (m ∷ back)) (length front) ≡ some m
get_elem?-append [] m back = refl
get_elem?-append (x ∷ front) m back = get_elem?-append front m back

best_from-Chosen :
    (all : List Member) (better : Member → Member → Bool) (i : ℕ) (members : List Member) (b : Best)
    → ((j : ℕ) (m : Member) → get_elem? members j ≡ some m → get_elem? all (i + j) ≡ some m)
    → Chosen all b
    → Chosen all (best_from better i members b)
unfolding best_from
best_from-Chosen all better i [] b at c = c
best_from-Chosen all better i (m ∷ members) b at c =
    let here : get_elem? all i ≡ some m = ap (get_elem? all) (omega arith) ∙ at 0 m refl in
    best_from-Chosen all better (suc i) members _
      (λ j x e. ap (get_elem? all) (omega arith) ∙ at (suc j) x e)
      (if-intro (Chosen all) (m.usage_parameter == 0) (λ _. c)
        (λ busy. kill_check-Chosen all better b i m here (ground arith) c))

kill_check-some :
    (better : Member → Member → Bool) (b : Best) (i : ℕ) (m : Member)
    → kill_check better b i m ≢ none
kill_check-some better none i m = λ e. absurd (cc e)
kill_check-some better (some (j, best)) i m =
    if-intro (λ (b : Best). b ≢ none) (better m best) (λ _ e. absurd (cc e)) (λ _ e. absurd (cc e))

best_from-some :
    (better : Member → Member → Bool) (i : ℕ) (members : List Member) (b : Best)
    → b ≢ none
    → best_from better i members b ≢ none
unfolding best_from
best_from-some better i [] b n = n
best_from-some better i (m ∷ members) b n = best_from-some better (suc i) members _ (
    if-intro (λ (b : Best). b ≢ none) (m.usage_parameter == 0) (λ _. n)
      (λ _. kill_check-some better b i m))

best_from-none :
    (better : Member → Member → Bool) (i : ℕ) (members : List Member) (b : Best) (acc : ℕ)
    → best_from better i members b ≡ none
    → total acc members ≡ acc
unfolding best_from total
best_from-none better i [] b acc e = refl
best_from-none better i (m ∷ members) b acc e = elim (Bool-cases (m.usage_parameter == 0)) [
  | inl idle ↦ best_from-none better (suc i) members _ _ e ∙ rw idle
  | inr busy ↦
      absurd (best_from-some better (suc i) members _ (rw busy (kill_check-some better b i m)) e)
]

-- What the choice of a pass over the whole group is: a member with a parameter, or none, and then the
-- sum is 0.
pub choose-Chosen :
    (mode : Method) (r lsz : ℕ) (members : List Member)
    → mode ≢ method_random
    → let f = look_from 0 members nothing_found in
      ((choose mode r lsz f ≡ none) × (total 0 members ≡ 0))
      ⊎ ((i : ℕ) × (m : Member) × (choose mode r lsz f ≡ some i)
          × (get_elem? members i ≡ some m)
          × (0 < m.usage_parameter))
choose-Chosen mode r lsz members n = go (best_from (better_of mode) 0 members none) refl (
    best_from-Chosen members (better_of mode) 0 members none
      (λ j m e. ap (get_elem? members) (omega arith) ∙ e) nobody)
  where
    start : (mode : Method) → best_of mode nothing_found ≡ none
    start method_random = refl
    start method_first = refl
    start method_last = refl
    start method_highest = refl
    start method_lowest = refl

    chosen :
        (b : Best)
        → best_from (better_of mode) 0 members none ≡ b
        → choose mode r lsz (look_from 0 members nothing_found) ≡ index_of b
    chosen b e =
        choose-best mode r lsz (look_from 0 members nothing_found) n
        ∙ ap index_of (
            look_from-best mode 0 members nothing_found n
            ∙ ap (best_from (better_of mode) 0 members) (start mode)
            ∙ e)

    go :
        (b : Best)
        → best_from (better_of mode) 0 members none ≡ b
        → Chosen members b
        → let f = look_from 0 members nothing_found in
          ((choose mode r lsz f ≡ none) × (total 0 members ≡ 0))
          ⊎ ((i : ℕ) × (m : Member) × (choose mode r lsz f ≡ some i)
              × (get_elem? members i ≡ some m)
              × (0 < m.usage_parameter))
    go b e nobody = inl (chosen none e, best_from-none (better_of mode) 0 members none 0 e)
    go b e (somebody i m at p) = inr (i, m, chosen (some (i, m)) e, at, p)
