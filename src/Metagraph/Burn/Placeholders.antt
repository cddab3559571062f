-- ===== src/Metagraph/Burn/Placeholders.antt =====
-- The subnets that `sync_subnet_emissions` makes do not replace those that are there.
use sentinel_tower.Prelude.{
  ℕ, ◌≡◌, refl, inl, inr, Bool, true, false, Option, none, some, List, [], ◌∷◌, Bool-cases,
  Option-cases,
}
use sentinel_tower.Prelude.Int.{ℤ, pos, negsuc}
use sentinel_tower.Prelude.Rows.{find_row, find_row-insert}
use sentinel_tower.Epoch.Position.{is_meta_epoch_start, meta_epoch_block}
use sentinel_tower.Metagraph.Keys.{is_among}
use sentinel_tower.Metagraph.Relations.{create_new}
use sentinel_tower.Metagraph.Rows.{Subnet, is_block, is_subnet}
use sentinel_tower.Metagraph.Sync.Keyed.{eq_of_test}
use sentinel_tower.Metagraph.Burn.{
  Burns, ChainRead, unsupported, failed, unavailable, values, ChainProvider, Providers,
  recover_block_timestamp, add_block, meta_epoch_at, meta_epoch_for_block,
}
use sentinel_tower.Metagraph.Burn.Emissions.{
  placeholders_of, store_emissions, read_emissions, sync_subnet_emissions,
}
use sentinel_tower.Metagraph.Burn.Anchored.{IsValidBurns}
use sentinel_tower.Metagraph.Burn.Valid.{sync_subnet_emissions-IsValidBurns}

-- A row that the table has is found after others were added.
create_new-found :
    {K R : Type 0} (matches : K → R → Bool) (key : R → K)
    → ((k : K) (r : R) → matches k r ≡ true → k ≡ key r)
    → (new rows : List R) (k : K) {u : R} → find_row (matches k) rows ≡ some u
    → find_row (matches k) (create_new matches key new rows) ≡ some u
unfolding create_new
create_new-found matches key own [] rows k e = e
create_new-found matches key own (r ∷ rs) rows k e =
    elim (Option-cases (find_row (matches (key r)) rows)) [
      | inl f ↦
          rw (f, create_new)
            (create_new-found matches key own rs (r ∷ rows) k
              (find_row-insert matches (key r) k r rows (own k r) f e))
      | inr (x, f) ↦ rw (f, create_new) (create_new-found matches key own rs rows k e)
    ]

meta_epoch_at-subnets :
    (ps : Providers) (a : ℕ) (s : Burns) → (meta_epoch_at ps a s).1.state.subnets ≡ s.state.subnets
unfolding meta_epoch_at add_block
meta_epoch_at-subnets ps a s = elim (Bool-cases (is_among a s.meta_epochs)) [
  | inl t ↦ rw (t, meta_epoch_at) refl
  | inr f ↦ elim (Option-cases (find_row (is_block a) s.state.blocks)) [
    | inr (b, e) ↦ rw (f, e, meta_epoch_at) refl
    | inl e ↦ elim (Option-cases (recover_block_timestamp ps a)) [
      | inl g ↦ rw (f, e, g, meta_epoch_at) refl
      | inr (t, g) ↦ rw (f, e, g, meta_epoch_at) refl
    ]
  ]
]

meta_epoch_for_block-subnets :
    (ps : Providers) (block : ℕ) (s : Burns)
    → (meta_epoch_for_block ps block s).1.state.subnets ≡ s.state.subnets
unfolding meta_epoch_for_block
meta_epoch_for_block-subnets ps block s = go (meta_epoch_block (pos block)) refl
  where
    go :
        (z : ℤ)
        → meta_epoch_block (pos block) ≡ z
        → (meta_epoch_for_block ps block s).1.state.subnets ≡ s.state.subnets
    go (negsuc m) e = rw (e, meta_epoch_for_block) refl
    go (pos a) e = rw (e, meta_epoch_for_block) (meta_epoch_at-subnets ps a s)

store_emissions-found :
    (chain : List (ℕ × Bool)) (p : Option ℕ × Burns) (n : ℕ) {u : Subnet}
    → find_row (is_subnet n) p.1.state.subnets ≡ some u
    → find_row (is_subnet n) (store_emissions chain p).1.state.subnets ≡ some u
unfolding store_emissions
store_emissions-found chain (none, s) n e = e
store_emissions-found chain (some epoch, s) n e =
    create_new-found is_subnet (λ u. u.netuid) (λ k r. eq_of_test k r.netuid)
      (placeholders_of chain) s.state.subnets n e

-- Sampling the emissions keeps the unique constraints of all tables, every meta epoch has its block, and
-- a subnet that is in the table stays as it is, whatever the chain answers: a row that has only its
-- netuid never takes its place.
pub sync_subnet_emissions-IsSafe :
    (ps : Providers) (block : ℕ) (s : Burns) (n : ℕ) {u : Subnet}
    → IsValidBurns s
    → find_row (is_subnet n) s.state.subnets ≡ some u
    → IsValidBurns (sync_subnet_emissions ps block s).1
      × (find_row (is_subnet n) (sync_subnet_emissions ps block s).1.state.subnets ≡ some u)
unfolding sync_subnet_emissions read_emissions
sync_subnet_emissions-IsSafe ps block s n {u} h found =
    (sync_subnet_emissions-IsValidBurns ps block s h, go (is_meta_epoch_start (pos block)) refl)
  where
    Kept : Burns → Type 0
    Kept t = find_row (is_subnet n) t.state.subnets ≡ some u

    read : (r : ChainRead) → Kept (read_emissions ps block r s).1
    read unsupported = found
    read failed = found
    read unavailable = found
    read (values chain) =
        store_emissions-found chain (meta_epoch_for_block ps block s) n
          (rw (meta_epoch_for_block-subnets ps block s) found)

    provided :
        is_meta_epoch_start (pos block) ≡ true
        → (p : Option ChainProvider) → ps.current ≡ p
        → Kept (sync_subnet_emissions ps block s).1
    provided t none e = rw (t, e, sync_subnet_emissions) found
    provided t (some p) e =
        rw (t, e, sync_subnet_emissions) (read (p.get_subnet_emission_enabled block))

    go :
        (b : Bool) → is_meta_epoch_start (pos block) ≡ b → Kept (sync_subnet_emissions ps block s).1
    go true e = provided e ps.current refl
    go false e = rw (e, sync_subnet_emissions) found
