-- ===== src/Metagraph/Relations.antt =====
-- `RelationBulkSyncer` of app/src/apps/metagraph/services/relation_bulk_syncer.py.
use sentinel_tower.Prelude.{
  ℕ, ◌==◌, Bool, ◌&&◌, Option, none, some, List, [], ◌∷◌, length, if◌then◌else◌,
}
use sentinel_tower.Prelude.Rows.{find_row}
use sentinel_tower.Json.{Result, ok, ◌>>=◌}
use sentinel_tower.Metagraph.Amounts.{to_rao}
use sentinel_tower.Metagraph.Rows.{
  Neuron, Link, Collateral, LinkDto, CollateralDto, is_link, is_collateral,
}

abbrev pub NeuronCache : Type 0
NeuronCache = List ((ℕ × ℕ) × Neuron)

-- The neuron that the map of a subnet's uids holds: the cache lists the newest entry first, and a later
-- entry of the map hides an earlier one.
unfoldable pub neuron_by_uid : ℕ → ℕ → NeuronCache → Option Neuron
neuron_by_uid netuid uid [] = none
neuron_by_uid netuid uid ((k, n) ∷ cache) =
    if (k.1 == netuid) && (n.uid == uid) then some n else neuron_by_uid netuid uid cache

-- `bulk_create(..., ignore_conflicts=True)`, by a unique constraint: a row whose key the table has is
-- left out.
unfoldable pub create_new : {K R : Type 0} → (K → R → Bool) → (R → K) → List R → List R → List R
unfolding find_row
create_new matches key [] rows = rows
create_new matches key (r ∷ rs) rows = elim (find_row (matches (key r)) rows) [
  | none ↦ create_new matches key rs (r ∷ rows)
  | some x ↦ create_new matches key rs rows
]

abbrev pub link_key : Link → ℕ × ℕ × ℕ × ℕ
link_key l = (l.source_neuron_id, l.target_neuron_id, l.block_id, l.mech_id)

abbrev pub collateral_key : Collateral → ℕ × ℕ × ℕ
collateral_key c = (c.source_neuron_id, c.target_neuron_id, c.block_id)

module _ (cache : NeuronCache) (block netuid : ℕ) where
  unfoldable pub links_to_create : List LinkDto → List Link
  unfolding neuron_by_uid
  links_to_create [] = []
  links_to_create (l ∷ ls) =
      let rest = links_to_create ls in
      elim (neuron_by_uid netuid l.source_neuron_uid cache) [
        | none ↦ rest
        | some s ↦ elim (neuron_by_uid netuid l.target_neuron_uid cache) [
          | none ↦ rest
          | some t ↦
              record {
                source_neuron_id = s.id;
                target_neuron_id = t.id;
                block_id = block;
                mech_id = l.mech_id;
                value = l.value;
              }
              ∷ rest
        ]
      ]

  -- `sync_weights`, and in the same way `sync_bonds`: the number of the records, and the table.
  unfoldable pub sync_links : List LinkDto → List Link → ℕ × List Link
  unfolding links_to_create create_new
  sync_links ls rows =
      (length (links_to_create ls), create_new is_link link_key (links_to_create ls) rows)

  unfoldable pub collaterals_to_create : List CollateralDto → Result (List Collateral)
  unfolding neuron_by_uid
  collaterals_to_create [] = ok []
  collaterals_to_create (c ∷ cs) = elim (neuron_by_uid netuid c.source_neuron_uid cache) [
    | none ↦ collaterals_to_create cs
    | some s ↦ elim (neuron_by_uid netuid c.target_neuron_uid cache) [
      | none ↦ collaterals_to_create cs
      | some t ↦ do
        amount ← to_rao c.amount
        rest ← collaterals_to_create cs
        ok (
            record {
              source_neuron_id = s.id;
              target_neuron_id = t.id;
              block_id = block;
              amount = amount;
            }
            ∷ rest)
    ]
  ]

  unfoldable pub sync_collaterals :
      List CollateralDto → List Collateral → Result (ℕ × List Collateral)
  unfolding collaterals_to_create create_new
  sync_collaterals cs rows = do
    new ← collaterals_to_create cs
    ok (length new, create_new is_collateral collateral_key new rows)
