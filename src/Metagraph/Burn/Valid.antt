-- ===== src/Metagraph/Burn/Valid.antt =====
-- The handler of a block and the sampling of emissions keep the unique constraints, and every meta epoch
-- keeps its block.
use Prim.Native.String.{String}
use sentinel_tower.Prelude.{
  ℕ, ◌==◌, ◌≡◌, refl, inl, inr, Bool, true, false, not, ◌||◌, Option, none, some, List, [], ◌∷◌,
  Bool-cases, Option-cases,
}
use sentinel_tower.Prelude.Int.{pos}
use sentinel_tower.Prelude.Rows.{find_row, IsKeyed, upsert-IsKeyed}
use sentinel_tower.Epoch.Position.{
  Position, get_epoch_position, root_netuid, is_subnet_epoch_start, is_meta_epoch_start,
}
use sentinel_tower.Json.{Result, ok, raised}
use sentinel_tower.Metagraph.Rows.{MetagraphDump, Metagraph, is_subnet, is_dump}
use sentinel_tower.Metagraph.Sync.{DumpMetadata}
use sentinel_tower.Metagraph.Sync.Run.{Stats, new_service}
use sentinel_tower.Metagraph.Sync.Keyed.{own_pair, eq_of_test, create_new-IsKeyed}
use sentinel_tower.Metagraph.Sync.Valid.{new_service-IsValid, sync_metagraph-IsValid}
use sentinel_tower.Metagraph.Sync.History.{sync_metagraph-keeps}
use sentinel_tower.Metagraph.Burn.{
  SubnetBurn, SubnetEmission, Burns, is_burn, is_emission, ChainRead, unsupported, failed,
  unavailable, values, ChainProvider, Providers, Floats, MechanismShares, per_mechanism_shares,
  owner_coldkey, put_burn, burn_from_dump, precedes_epochs, sync_burn,
}
use sentinel_tower.Metagraph.Burn.Emissions.{
  emissions_of, placeholders_of, put_emissions, store_emissions, read_emissions,
  sync_subnet_emissions, is_start, position_text, after_sync, sync_metagraph_for_block,
}
use sentinel_tower.Metagraph.Burn.Anchored.{
  IsValidBurns, with_subnets, meta_epoch_for_block-IsValidBurns,
}

with_burns :
    (s : Burns) (rows : List SubnetBurn)
    → IsValidBurns s
    → IsKeyed is_burn rows
    → IsValidBurns (record s { burns = rows })
with_burns s rows h k = record {
  state_valid = h.state_valid;
  burns_keyed = k;
  emissions_keyed = h.emissions_keyed;
  epochs_anchored = h.epochs_anchored;
}

module _ (fl : Floats) (ps : Providers) (superburn : Option String) where
  put_burn-IsValidBurns :
      (block netuid : ℕ) (shares : List MechanismShares) (p : Option ℕ × Burns)
      → IsValidBurns p.1
      → IsValidBurns (put_burn fl ps superburn block netuid shares p).1
  unfolding put_burn
  put_burn-IsValidBurns block netuid shares (none, s) h = h
  put_burn-IsValidBurns block netuid shares (some epoch, s) h = with_burns s _ h (
      upsert-IsKeyed is_burn (netuid, epoch) _ _ s.burns (λ k. own_pair k netuid epoch)
        (λ k r. refl) h.burns_keyed)

  burn_from_dump-IsValidBurns :
      (block netuid : ℕ) (s : Burns) (d : MetagraphDump)
      → IsValidBurns s
      → IsValidBurns (burn_from_dump fl ps superburn block netuid s d).1
  unfolding burn_from_dump
  burn_from_dump-IsValidBurns block netuid s d h = go shares refl
    where
      shares : List MechanismShares
      shares = per_mechanism_shares fl s.state block netuid (owner_coldkey s.state d) superburn

      go :
          (hs : List MechanismShares)
          → shares ≡ hs
          → IsValidBurns (burn_from_dump fl ps superburn block netuid s d).1
      go [] e = rw (e, burn_from_dump) h
      go (x ∷ xs) e =
          rw (e, burn_from_dump)
            (put_burn-IsValidBurns block netuid (x ∷ xs) _
              (meta_epoch_for_block-IsValidBurns ps block s h))

  pub sync_burn-IsValidBurns :
      (block netuid : ℕ) (s : Burns)
      → IsValidBurns s
      → IsValidBurns (sync_burn fl ps superburn block netuid s).1
  unfolding sync_burn
  sync_burn-IsValidBurns block netuid s h = elim (Bool-cases skips) [
    | inl t ↦ rw (t, sync_burn) h
    | inr f ↦ elim (Option-cases (find_row (is_subnet netuid) s.state.subnets)) [
      | inl e ↦ rw (f, e, sync_burn) h
      | inr (x, e) ↦ elim (Option-cases (find_row (is_dump (netuid, block)) s.state.dumps)) [
        | inl g ↦ rw (f, e, g, sync_burn) h
        | inr (d, g) ↦ rw (f, e, g, sync_burn) (burn_from_dump-IsValidBurns block netuid s d h)
      ]
    ]
  ]
    where
      skips : Bool
      skips =
          (netuid == root_netuid)
          || not (is_subnet_epoch_start (pos block) netuid)
          || precedes_epochs fl ps superburn block

put_emissions-IsKeyed :
    (es rows : List SubnetEmission)
    → IsKeyed is_emission rows
    → IsKeyed is_emission (put_emissions es rows)
unfolding put_emissions
put_emissions-IsKeyed [] rows h = h
put_emissions-IsKeyed (e ∷ es) rows h = put_emissions-IsKeyed es _ (
    upsert-IsKeyed is_emission (e.subnet_id, e.meta_epoch_id) _ e rows
      (λ k. own_pair k e.subnet_id e.meta_epoch_id) (λ k r. refl) h)

store_emissions-IsValidBurns :
    (chain : List (ℕ × Bool)) (p : Option ℕ × Burns)
    → IsValidBurns p.1
    → IsValidBurns (store_emissions chain p).1
unfolding store_emissions
store_emissions-IsValidBurns chain (none, s) h = h
store_emissions-IsValidBurns chain (some epoch, s) h = record {
  state_valid = with_subnets s.state _ h.state_valid (
      create_new-IsKeyed is_subnet (λ n. n.netuid) (λ k r. eq_of_test k r.netuid)
        (placeholders_of chain) s.state.subnets h.state_valid.subnets_keyed);
  burns_keyed = h.burns_keyed;
  emissions_keyed = put_emissions-IsKeyed (emissions_of epoch chain) s.emissions h.emissions_keyed;
  epochs_anchored = h.epochs_anchored;
}

pub sync_subnet_emissions-IsValidBurns :
    (ps : Providers) (block : ℕ) (s : Burns)
    → IsValidBurns s
    → IsValidBurns (sync_subnet_emissions ps block s).1
unfolding sync_subnet_emissions read_emissions
sync_subnet_emissions-IsValidBurns ps block s h = go (is_meta_epoch_start (pos block)) refl
  where
    read : (r : ChainRead) → IsValidBurns (read_emissions ps block r s).1
    read unsupported = h
    read failed = h
    read unavailable = h
    read (values chain) =
        store_emissions-IsValidBurns chain _ (meta_epoch_for_block-IsValidBurns ps block s h)

    provided :
        is_meta_epoch_start (pos block) ≡ true
        → (p : Option ChainProvider) → ps.current ≡ p
        → IsValidBurns (sync_subnet_emissions ps block s).1
    provided t none e = rw (t, e, sync_subnet_emissions) h
    provided t (some p) e =
        rw (t, e, sync_subnet_emissions) (read (p.get_subnet_emission_enabled block))

    go :
        (b : Bool)
        → is_meta_epoch_start (pos block) ≡ b
        → IsValidBurns (sync_subnet_emissions ps block s).1
    go true e = provided e ps.current refl
    go false e = rw (e, sync_subnet_emissions) h

module _ (fl : Floats) (ps : Providers) (superburn : Option String) (now : ℕ) (zone : ℕ → ℕ) where
  after_sync-IsValidBurns :
      (block netuid : ℕ) (p : Position) (r : Result Stats) (s : Burns)
      → IsValidBurns s
      → IsValidBurns (after_sync fl ps superburn now zone block netuid p r s).1
  unfolding after_sync
  after_sync-IsValidBurns block netuid p raised s h = h
  after_sync-IsValidBurns block netuid p (ok t) s h = elim (Bool-cases (is_start p)) [
    | inl e ↦ rw (e, after_sync) (sync_burn-IsValidBurns fl ps superburn block netuid s h)
    | inr e ↦ rw (e, after_sync) h
  ]

  -- Storing the metagraph of a block, and the burn after it, keeps the unique constraints of all tables,
  -- and every meta epoch has its block, whatever the SDK gives and wherever an exception ends it. The keys
  -- that the service has cached agree with their rows if no exception has ended it.
  pub sync_metagraph_for_block-IsValidBurns :
      (block netuid : ℕ) (ingested : Result (Option Metagraph)) (started finished : ℕ) (s : Burns)
      → IsValidBurns s
      → IsValidBurns
          (sync_metagraph_for_block fl ps superburn now zone block netuid ingested started finished
            s).1
  unfolding sync_metagraph_for_block new_service
  sync_metagraph_for_block-IsValidBurns block netuid raised started finished s h = h
  sync_metagraph_for_block-IsValidBurns block netuid (ok none) started finished s h = h
  sync_metagraph_for_block-IsValidBurns block netuid (ok (some meta)) started finished s h =
      elim (Option-cases (get_epoch_position (pos block) netuid)) [
        | inl e ↦ rw (e, sync_metagraph_for_block) h
        | inr (p, e) ↦
            rw (e, sync_metagraph_for_block)
              (after_sync-IsValidBurns block netuid p _ _ (record {
                state_valid =
                    sync_metagraph-IsValid now zone meta (dump p) _
                      (new_service-IsValid s.state h.state_valid);
                burns_keyed = h.burns_keyed;
                emissions_keyed = h.emissions_keyed;
                epochs_anchored = λ a t.
                    let old = h.epochs_anchored a t in
                    let kept =
                      (sync_metagraph-keeps now zone meta (dump p) (new_service s.state)).0 a old.0
                        old.1 in
                    (kept.0, kept.1);
              }))
      ]
    where
      dump : Position → DumpMetadata
      dump p = record {
        netuid = netuid;
        epoch_position = position_text p;
        started_at = started;
        finished_at = finished;
      }
