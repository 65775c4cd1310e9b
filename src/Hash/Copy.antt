-- ===== src/Hash/Copy.antt =====
-- `hash_copy`: the pairs of a copy.
use frozen.Base.{
  arith, ◌^◌, ◌<◌, ℕ, suc, ◌+◌, ◌≡◌, refl, inl, inr, [], ◌∷◌, ◌++◌, ◌==◌, if◌then◌else◌, Bool-cases,
  ap, ap₂, sym, ◌∙◌, map,
}
use mathlib.Core.Option
use mathlib.Core.List.{map-append}
use frozen.Hash.{
  Data, key_null, HashT, HashRef, item, inline, end, null, ref, hash_copy, copy_in, hash_data_find,
  hash_nelements, count_items,
}
use frozen.Hash.Flat.{Pairs, flat, flat_in, lookup, IsKey, hash_data_find-lookup}

-- The used items of one array, those that are not `hash_null`.
unfoldable pub used_items : HashT → ℕ
used_items (item k d rest) = if k == key_null then used_items rest else suc (used_items rest)
used_items (inline h rest) = suc (used_items rest)
used_items (end next) = 0

-- Each array of a hash has less than 2^32 - 1 used items.
unfoldable mutual
  pub IsSmall : HashRef → Type 0
  IsSmall null = Unit {0}
  IsSmall (ref h) = (used_items h + 1 < 2 ^ 32) × AreSmall h

  -- The same of the hashes that an array refers to.
  pub AreSmall : HashT → Type 0
  AreSmall (item k d rest) = AreSmall rest
  AreSmall (inline h rest) = IsSmall h × AreSmall rest
  AreSmall (end next) = IsSmall next

module _ (copy : Data → Data) where
  abbrev pub copy_pair : ℕ × Data → ℕ × Data
  copy_pair (k, d) = (k, copy d)

  item-copy :
      (k : ℕ) (d : Data) (rest : HashT)
      → flat_in (copy_in copy rest) ≡ map copy_pair (flat_in rest)
      → flat_in (copy_in copy (item k d rest)) ≡ map copy_pair (flat_in (item k d rest))
  unfolding flat hash_copy
  item-copy k d rest ih = elim (Bool-cases (k == key_null)) [
    | inl skip ↦ rw skip ih
    | inr keep ↦ rw (keep, keep) (ap (λ t. (k, copy d) ∷ t) ih)
  ]

  mutual
    unfolding flat hash_copy

    flat-copy : (h : HashRef) → flat (hash_copy copy h) ≡ map copy_pair (flat h)
    flat-copy null = refl
    flat-copy (ref h) = flat-copy_in h

    flat-copy_in : (h : HashT) → flat_in (copy_in copy h) ≡ map copy_pair (flat_in h)
    flat-copy_in (item k d rest) = item-copy k d rest (flat-copy_in rest)
    flat-copy_in (inline h rest) =
        ap₂ ◌++◌ (flat-copy h) (flat-copy_in rest)
        ∙ sym (map-append copy_pair (flat h) (flat_in rest))
    flat-copy_in (end next) = flat-copy next

  lookup-copy :
      (key : ℕ) (pairs : Pairs)
      → lookup key (map copy_pair pairs) ≡ Option.map copy (lookup key pairs)
  unfolding lookup
  lookup-copy key [] = refl
  lookup-copy key ((k, d) ∷ pairs) = elim (Bool-cases (k == key)) [
    | inl hit ↦ rw hit
    | inr miss ↦ rw miss (lookup-copy key pairs)
  ]

  count-copy : (h : HashT) → count_items (copy_in copy h) ≡ used_items h
  unfolding count_items used_items hash_copy
  count-copy (item k d rest) = elim (Bool-cases (k == key_null)) [
    | inl skip ↦ rw skip (count-copy rest)
    | inr keep ↦ rw keep (ap suc (count-copy rest))
  ]
  count-copy (inline h rest) = ap suc (count-copy rest)
  count-copy (end next) = refl

  -- What is found in a copy.
  pub hash_copy-lookup :
      (key : ℕ) (h : HashT)
      → IsKey key
      → hash_data_find (hash_copy copy (ref h)) key ≡ Option.map copy (hash_data_find (ref h) key)
  unfolding hash_copy
  hash_copy-lookup key h k =
      hash_data_find-lookup key (hash_copy copy (ref h)) k
      ∙ ap (lookup key) (flat-copy (ref h))
      ∙ lookup-copy key (flat (ref h))
      ∙ ap (Option.map copy) (sym (hash_data_find-lookup key (ref h) k))

  -- A copy of a hash whose arrays have less than 2^32 - 1 used items holds under the key of a pair a copy
  -- of what the hash holds, and its own array has no `hash_null`: `hash_nelements` of it is the number of
  -- the items of the original that are used, and the end.
  pub hash_copy-find :
      (key : ℕ) (h : HashT)
      → IsKey key
      → IsSmall (ref h)
      → (hash_data_find (hash_copy copy (ref h)) key ≡ Option.map copy (hash_data_find (ref h) key))
        × (hash_nelements (hash_copy copy (ref h)) ≡ used_items h + 1)
  unfolding hash_copy hash_nelements IsSmall
  hash_copy-find key h k small = (hash_copy-lookup key h k, omega (arith, count-copy h, small.0))
