-- ===== src/Notifications/Registry/Classify.antt =====
-- Who gets what: the loops of the dispatchers against a description by filters.
use mathlib.Core.Path.{ap₂}
use mathlib.Core.List.{append-nil, append_assoc}
use sentinel_tower.Prelude.{
  ℕ, ◌+◌, ◌≡◌, refl, sym, suc, ap, ◌∙◌, Bool, true, false, not, List, [], ◌∷◌, ◌++◌, map, filter,
  length, length-append, if◌then◌else◌, arith, Bool-cases, inl, inr,
}
use sentinel_tower.Notifications.Registry.{Handler, Groups, place, classify}

-- How many items the groups hold.
abbrev pub held : {E : Type 0} → Groups E → ℕ
held [] = 0
held ((h, members) ∷ groups) = length members + held groups

pub length-map : {A B : Type 0} (f : A → B) (xs : List A) → length (map f xs) ≡ length xs
length-map f [] = refl
length-map f (x ∷ xs) = ap suc (length-map f xs)

pub length-parts :
    {A : Type 0} (p : A → Bool) (xs : List A)
    → length (filter p xs) + length (filter (λ x. not (p x)) xs) ≡ length xs
length-parts p [] = refl
length-parts p (x ∷ xs) = ground (arith, length-parts p xs)

module _ {E I : Type 0} (value : I → E) (match : I → Handler E → Bool) where
  abbrev missed : Handler E → List I → List I
  missed h items = filter (λ i. not (match i h)) items

  -- Each handler takes, in order, what it matches of what the handlers before it left.
  abbrev pub distribute : Groups E → List I → Groups E
  distribute [] items = []
  distribute ((h, members) ∷ groups) items =
      (h, members ++ map value (filter (λ i. match i h) items)) ∷ distribute groups (missed h items)

  -- What no handler matches.
  abbrev pub left_over : Groups E → List I → List I
  left_over [] items = items
  left_over ((h, members) ∷ groups) items = left_over groups (missed h items)

  distribute-nil : (groups : Groups E) → distribute groups [] ≡ groups
  distribute-nil [] = refl
  distribute-nil ((h, members) ∷ groups) = cc (append-nil members, distribute-nil groups)

  left_over-nil : (groups : Groups E) → left_over groups [] ≡ []
  left_over-nil [] = refl
  left_over-nil ((h, members) ∷ groups) = left_over-nil groups

  distribute-place :
      (item : I) (items : List I) (groups : Groups E)
      → distribute (place value match item groups).1 items ≡ distribute groups (item ∷ items)
  unfolding place
  distribute-place item items [] = refl
  distribute-place item items ((h, members) ∷ groups) = elim (Bool-cases (match item h)) [
    | inl e ↦
        rw e
          (cc (append_assoc members (value item ∷ []) (map value (filter (λ i. match i h) items))))
    | inr e ↦ rw e (
        ap (λ r. (h, members ++ map value (filter (λ i. match i h) items)) ∷ r)
          (distribute-place item (missed h items) groups))
  ]

  left_over-place :
      (item : I) (items : List I) (groups : Groups E)
      → left_over groups (item ∷ items) ≡ (
          if (place value match item groups).0
          then left_over (place value match item groups).1 items
          else item ∷ left_over (place value match item groups).1 items)
  unfolding place
  left_over-place item items [] = refl
  left_over-place item items ((h, members) ∷ groups) = elim (Bool-cases (match item h)) [
    | inl e ↦ rw e
    | inr e ↦ rw e (left_over-place item (missed h items) groups)
  ]

  set_apart :
      (caught : I → Bool) (found : Bool) (item : I) (items : List I) (rest : List E)
      → (if found then rest else if caught item then rest ++ value item ∷ [] else rest)
          ++ map value (filter caught items)
        ≡ rest ++ map value (filter caught (if found then items else item ∷ items))
  set_apart caught true item items rest = refl
  set_apart caught false item items rest = elim (Bool-cases (caught item)) [
    | inl e ↦ rw e (append_assoc rest (value item ∷ []) (map value (filter caught items)))
    | inr e ↦ rw e
  ]

  -- The two loops give each handler exactly the items that it matches and no earlier handler does, in
  -- order, and keep apart exactly those that no handler matches and that are to be caught.
  pub classify_lem :
      (caught : I → Bool) (items : List I) (groups : Groups E) (rest : List E)
      → classify value match caught items (groups, rest)
        ≡ (distribute groups items, rest ++ map value (filter caught (left_over groups items)))
  unfolding classify
  classify_lem caught [] groups rest =
      rw (left_over-nil groups, distribute-nil groups) (cc (append-nil rest))
  classify_lem caught (item ∷ items) groups rest =
      let (found, groups') = place value match item groups in
      classify_lem caught items groups'
        (if found then rest else if caught item then rest ++ value item ∷ [] else rest)
      ∙ ap₂ (λ a b. (a, b)) (distribute-place item items groups)
          (set_apart caught found item (left_over groups' items) rest
            ∙ ap (λ l. rest ++ map value (filter caught l))
                (sym (left_over-place item items groups)))

  -- Every item is in one group or left over, once.
  pub held-distribute :
      (groups : Groups E) (items : List I)
      → held (distribute groups items) + length (left_over groups items)
        ≡ held groups + length items
  held-distribute [] items = refl
  held-distribute ((h, members) ∷ groups) items = omega (
    arith,
    held-distribute groups (missed h items),
    length-append members (map value (filter (λ i. match i h) items)),
    length-map value (filter (λ i. match i h) items),
    length-parts (λ i. match i h) items,
  )
