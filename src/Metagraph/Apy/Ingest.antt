-- ===== src/Metagraph/Apy/Ingest.antt =====
-- The statements of one pass of app/src/apps/metagraph/services/apy_epoch_ingest.py, seen at one key:
-- what each does to the fact that has the key.
use sentinel_tower.Prelude.{
  ℕ, suc, ◌≤◌, ◌≡◌, refl, sym, ap, ◌∙◌, inl, inr, Bool, true, false, not, ◌&&◌, Option, none, some,
  List, [], ◌∷◌, filter, length, if◌then◌else◌, Bool-cases, Option-cases, arith, none_absurd,
}
use sentinel_tower.Prelude.Rows.{find_row, find_row-update_where}
use sentinel_tower.Metagraph.Rows.{NeuronSnapshot, State}
use sentinel_tower.Metagraph.Sync.Keyed.{own_triple}
use sentinel_tower.Metagraph.Apy.{
  ValidatorApyEpoch, is_fact, neuron_of, is_eligible, concerns, disqualifies, exists_row, reconcile,
  differs, overwrite, key_of, upsert_fact, upsert_facts,
}
use sentinel_tower.Metagraph.Apy.Search.{find_row-filter, find_row-update_other, none-of_count}

-- Whether the snapshot that a key names still has what a fact needs.
unfoldable pub qualifies : State → NeuronSnapshot → Bool
unfolding neuron_of is_eligible
qualifies s ns = elim (neuron_of s ns) [ none ↦ true | some n ↦ is_eligible s n ns ]

-- What an upsert makes of a fact that is there or not.
unfoldable pub merged : Option ValidatorApyEpoch → ValidatorApyEpoch → ValidatorApyEpoch
unfolding differs overwrite
merged none f = f
merged (some e) f = if differs e f then overwrite f e else e

module _ (range : NeuronSnapshot → Bool) (s : State) (k : ℕ × ℕ × ℕ) where
  -- The snapshots of the range that the key names.
  abbrev pub named : NeuronSnapshot → Bool
  named ns = range ns && concerns s k ns

  pub disqualifies-named :
      (e : ValidatorApyEpoch) (ns : NeuronSnapshot)
      → is_fact k e ≡ true
      → disqualifies range s e ns ≡ (named ns && not (qualifies s ns))
  unfolding disqualifies concerns qualifies
  disqualifies-named e ns own = ground arith

  pub exists_row-same :
      (p q : NeuronSnapshot → Bool) (rows : List NeuronSnapshot)
      → ((ns : NeuronSnapshot) → p ns ≡ q ns)
      → exists_row p rows ≡ exists_row q rows
  unfolding exists_row
  exists_row-same p q [] same = refl
  exists_row-same p q (ns ∷ rows) same = rw (same ns, exists_row-same p q rows same) refl

  -- The fact of a key goes exactly where the snapshot of the key does not qualify.
  pub reconcile-at :
      (facts : List ValidatorApyEpoch)
      → find_row (is_fact k) (reconcile range s facts).1 ≡ (
          if exists_row (λ ns. named ns && not (qualifies s ns)) s.snapshots.rows
          then none
          else find_row (is_fact k) facts)
  unfolding reconcile
  reconcile-at facts =
      find_row-filter (is_fact k) _
        (not (exists_row (λ ns. named ns && not (qualifies s ns)) s.snapshots.rows)) facts
        (λ e own. ap not (exists_row-same _ _ s.snapshots.rows (λ ns. disqualifies-named e ns own)))
      ∙ flip (exists_row (λ ns. named ns && not (qualifies s ns)) s.snapshots.rows)
    where
      flip :
          (b : Bool)
          → (if not b then find_row (is_fact k) facts else none)
            ≡ (if b then none else find_row (is_fact k) facts)
      flip true = refl
      flip false = refl

pub is_fact-overwrite :
    (k : ℕ × ℕ × ℕ) (f e : ValidatorApyEpoch) → is_fact k (overwrite f e) ≡ is_fact k e
unfolding overwrite
is_fact-overwrite k f e = refl

pub is_fact-key_of : (k : ℕ × ℕ × ℕ) (f : ValidatorApyEpoch) → is_fact k f ≡ true → k ≡ key_of f
is_fact-key_of k f own = own_triple k f.subnet_id f.neuron_id f.epoch_block own

pub is_fact_self : (f : ValidatorApyEpoch) → is_fact (key_of f) f ≡ true
is_fact_self f = ground arith

module _ (f : ValidatorApyEpoch) (facts : List ValidatorApyEpoch) where
  upsert_fact-own :
      find_row (is_fact (key_of f)) (upsert_fact f facts).1
      ≡ some (merged (find_row (is_fact (key_of f)) facts) f)
  unfolding upsert_fact merged find_row
  upsert_fact-own = elim (Option-cases (find_row (is_fact (key_of f)) facts)) [
    | inl e ↦ rw (e, upsert_fact, is_fact_self f) refl
    | inr (e, found) ↦
        rw (found, upsert_fact)
          (elim (Bool-cases (differs e f)) [
            | inl t ↦ rw t (
                find_row-update_where (is_fact (key_of f)) (overwrite f) facts found
                  (λ x own. is_fact-overwrite (key_of f) f x ∙ own))
            | inr n ↦ rw n found
          ])
  ]

  upsert_fact-other :
      (k : ℕ × ℕ × ℕ)
      → is_fact k f ≡ false
      → find_row (is_fact k) (upsert_fact f facts).1 ≡ find_row (is_fact k) facts
  unfolding upsert_fact find_row
  upsert_fact-other k other = elim (Option-cases (find_row (is_fact (key_of f)) facts)) [
    | inl e ↦ rw (e, upsert_fact, other) refl
    | inr (e, found) ↦
        rw (found, upsert_fact)
          (elim (Bool-cases (differs e f)) [
            | inl t ↦ rw t (
                find_row-update_other (is_fact (key_of f)) (is_fact k) (overwrite f) facts
                  (λ x. is_fact-overwrite k f x) apart)
            | inr n ↦ rw n refl
          ])
  ]
    where
      apart : (x : ValidatorApyEpoch) → is_fact k x ≡ true → is_fact (key_of f) x ≡ false
      apart x own = ground arith

  -- An upsert changes the fact of its own key, and no other.
  pub upsert_fact-at :
      (k : ℕ × ℕ × ℕ)
      → find_row (is_fact k) (upsert_fact f facts).1 ≡ (
          if is_fact k f
          then some (merged (find_row (is_fact k) facts) f)
          else find_row (is_fact k) facts)
  upsert_fact-at k = elim (Bool-cases (is_fact k f)) [
    | inl own ↦ rw own (rw (is_fact-key_of k f own) upsert_fact-own)
    | inr other ↦ rw other (upsert_fact-other k other)
  ]

unfoldable pub updated :
    Option ValidatorApyEpoch → Option ValidatorApyEpoch → Option ValidatorApyEpoch
unfolding merged
updated none old = old
updated (some f) old = some (merged old f)

-- What several upserts make of the fact of a key, where one of them at most has the key.
module _ (k : ℕ × ℕ × ℕ) where
  upsert_facts-absent :
      (fs facts : List ValidatorApyEpoch)
      → find_row (is_fact k) fs ≡ none
      → find_row (is_fact k) (upsert_facts fs facts).1 ≡ find_row (is_fact k) facts
  unfolding upsert_facts find_row
  upsert_facts-absent [] facts e = refl
  upsert_facts-absent (f ∷ fs) facts e = elim (Bool-cases (is_fact k f)) [
    | inl own ↦ none_absurd (sym (rw own at e))
    | inr other ↦
        upsert_facts-absent fs (upsert_fact f facts).1 (rw other at e)
        ∙ upsert_fact-other f facts k other
  ]

  pub upsert_facts-at :
      (fs facts : List ValidatorApyEpoch)
      → length (filter (is_fact k) fs) ≤ 1
      → find_row (is_fact k) (upsert_facts fs facts).1
        ≡ updated (find_row (is_fact k) fs) (find_row (is_fact k) facts)
  unfolding upsert_facts find_row updated
  upsert_facts-at [] facts le = refl
  upsert_facts-at (f ∷ fs) facts le = elim (Bool-cases (is_fact k f)) [
    | inl own ↦ rw own (
        upsert_facts-absent fs (upsert_fact f facts).1 (alone (rw own at le))
        ∙ upsert_fact-at f facts k
        ∙ rw own refl)
    | inr other ↦ rw other (
        upsert_facts-at fs (upsert_fact f facts).1 (rw other at le)
        ∙ rw (upsert_fact-other f facts k other) refl)
  ]
    where
      alone : suc (length (filter (is_fact k) fs)) ≤ 1 → find_row (is_fact k) fs ≡ none
      alone le = none-of_count (is_fact k) fs (omega arith)
