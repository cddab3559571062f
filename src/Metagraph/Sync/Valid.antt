-- ===== src/Metagraph/Sync/Valid.antt =====
-- `sync_metagraph` keeps every unique constraint of the tables, and the caches of keys in agreement
-- with the tables.
use sentinel_tower.Prelude.{
  ℕ, ◌≡◌, refl, ap, ◌∙◌, inl, inr, Option, none, some, List, [], ◌∷◌, Option-cases,
}
use sentinel_tower.Json.{
  Result, ok, raised, Result-cases, raised_absurd, ok_injective, AfterOk, AfterOk-ok,
  AfterOk-raised, AfterOk-bind,
}
use sentinel_tower.Metagraph.Keys.{Hotkey, Keys, cached, get_cached_hotkey}
use sentinel_tower.Metagraph.Keys.Assign.{IsCoherent}
use sentinel_tower.Metagraph.Keys.Refines.{flush_hotkey_last_seen-IsCoherent}
use sentinel_tower.Metagraph.Keys.Unique.{flush_hotkey_last_seen-IsUnique}
use sentinel_tower.Metagraph.Rows.{State, HotkeyDto, NeuronDto, SnapshotDto, Metagraph}
use sentinel_tower.Metagraph.Sync.{DumpMetadata, measures_of}
use sentinel_tower.Metagraph.Sync.Run.{
  Stats, initial, cached_neuron, hotkey_for, evmkey_for, neuron_of_hotkey, sync_neuron,
  sync_neuron_snapshot, count_neuron, sync_one, sync_neurons, sync_relations, sync_all, new_service,
  sync_metagraph,
}
use sentinel_tower.Metagraph.Sync.Keyed.{
  sync_block-IsKeyed, whatever, sync_links-IsKeyed, sync_collaterals-IsKeyed,
  sync_mechanisms-IsKeyed, put_neuron-IsKeyed, sync_neuron_snapshot-IsKeyed,
  sync_metagraph_dump-IsKeyed,
}
use sentinel_tower.Metagraph.Sync.KeysValid.{
  KeysValid, IsValid, hotkey-IsValid, evmkey-IsValid, evmkey-IsValid, sync_keys-IsValid,
  sync_subnet-IsValid,
}

neuron_of_hotkey-IsValid :
    (dto : NeuronDto) (netuid : ℕ) (hotkey : Hotkey) (s : State)
    → IsValid s
    → IsValid (neuron_of_hotkey dto netuid hotkey s).1
unfolding neuron_of_hotkey
neuron_of_hotkey-IsValid dto netuid hotkey s h =
    elim (Option-cases (cached_neuron (hotkey.id, netuid) s.neuron_cache)) [
      | inl e ↦
          rw (e, neuron_of_hotkey)
            (record {
              keys_valid = evmkey-IsValid dto.evm_key s.keys h.keys_valid;
              blocks_keyed = h.blocks_keyed;
              subnets_keyed = h.subnets_keyed;
              neurons_keyed =
                  put_neuron-IsKeyed (hotkey.id, netuid) dto.uid (evmkey_for dto.evm_key s.keys).0
                    s.neurons h.neurons_keyed;
              snapshots_keyed = h.snapshots_keyed;
              metrics_keyed = h.metrics_keyed;
              weights_keyed = h.weights_keyed;
              bonds_keyed = h.bonds_keyed;
              collaterals_keyed = h.collaterals_keyed;
              dumps_keyed = h.dumps_keyed;
            })
      | inr (n, e) ↦ rw (e, neuron_of_hotkey) h
    ]

with_keys :
    (s : State) (keys : Keys) → IsValid s → KeysValid keys → IsValid (record s { keys = keys })
with_keys s keys h k = record {
  keys_valid = k;
  blocks_keyed = h.blocks_keyed;
  subnets_keyed = h.subnets_keyed;
  neurons_keyed = h.neurons_keyed;
  snapshots_keyed = h.snapshots_keyed;
  metrics_keyed = h.metrics_keyed;
  weights_keyed = h.weights_keyed;
  bonds_keyed = h.bonds_keyed;
  collaterals_keyed = h.collaterals_keyed;
  dumps_keyed = h.dumps_keyed;
}

hotkey_for-IsValid :
    (now : ℕ) (h : HotkeyDto) (s : Keys)
    → KeysValid s
    → AfterOk (λ q. KeysValid q.1) (hotkey_for now h s)
unfolding hotkey_for
hotkey_for-IsValid now h s v = elim (Option-cases (get_cached_hotkey h.hotkey s)) [
  | inl e ↦ rw (e, hotkey_for) (hotkey-IsValid now h.hotkey h.coldkey s v)
  | inr (k, e) ↦ rw (e, hotkey_for) (AfterOk-ok v)
]

sync_neuron-IsValid :
    (now : ℕ) (dto : NeuronDto) (netuid : ℕ) (s : State)
    → IsValid s
    → AfterOk (λ q. IsValid q.1) (sync_neuron now dto netuid s)
unfolding sync_neuron
sync_neuron-IsValid now dto netuid s h = go dto.hotkey refl
  where
    go :
        (d : Option HotkeyDto)
        → dto.hotkey ≡ d
        → AfterOk (λ q. IsValid q.1) (sync_neuron now dto netuid s)
    go none e = rw (e, sync_neuron) AfterOk-raised
    go (some d) e =
        rw (e, sync_neuron)
          (AfterOk-bind (hotkey_for-IsValid now d s.keys h.keys_valid) (λ found v.
            AfterOk-ok (neuron_of_hotkey-IsValid dto netuid found.0 _ (with_keys s found.1 h v))))

sync_one-IsValid :
    (now block netuid : ℕ) (dto : SnapshotDto) (s : State)
    → IsValid s
    → AfterOk IsValid (sync_one now block netuid dto s)
unfolding sync_one sync_neuron_snapshot
sync_one-IsValid now block netuid dto s h =
    AfterOk-bind (sync_keys-IsValid now dto.neuron s.keys h.keys_valid) (λ keys v.
      AfterOk-bind (sync_neuron-IsValid now dto.neuron netuid _ (with_keys s keys h v)) (λ found w.
        AfterOk-bind (whatever (measures_of dto)) (λ m e. AfterOk-ok (record {
          keys_valid = w.keys_valid;
          blocks_keyed = w.blocks_keyed;
          subnets_keyed = w.subnets_keyed;
          neurons_keyed = w.neurons_keyed;
          snapshots_keyed =
              sync_neuron_snapshot-IsKeyed found.0.id block m found.1 w.snapshots_keyed;
          metrics_keyed = sync_mechanisms-IsKeyed _ dto.mechanisms found.1.metrics w.metrics_keyed;
          weights_keyed = w.weights_keyed;
          bonds_keyed = w.bonds_keyed;
          collaterals_keyed = w.collaterals_keyed;
          dumps_keyed = w.dumps_keyed;
        }))))

sync_neurons-IsValid :
    (now block netuid : ℕ) (ns : List SnapshotDto) (t : Stats) (s : State)
    → IsValid s
    → AfterOk (λ q. IsValid q.1) (sync_neurons now block netuid ns t s)
unfolding sync_neurons
sync_neurons-IsValid now block netuid [] t s h = AfterOk-ok h
sync_neurons-IsValid now block netuid (n ∷ ns) t s h =
    AfterOk-bind (sync_one-IsValid now block netuid n s h)
      (λ s' v. sync_neurons-IsValid now block netuid ns (count_neuron n t) s' v)

sync_relations-IsValid :
    (meta : Metagraph) (block netuid : ℕ) (t : Stats) (s : State)
    → IsValid s
    → AfterOk (λ q. IsValid q.1) (sync_relations meta block netuid t s)
unfolding sync_relations
sync_relations-IsValid meta block netuid t s h =
    AfterOk-bind
      (sync_collaterals-IsKeyed s.neuron_cache block netuid meta.collaterals s.collaterals
        h.collaterals_keyed)
      (λ c v. AfterOk-ok (record {
        keys_valid = h.keys_valid;
        blocks_keyed = h.blocks_keyed;
        subnets_keyed = h.subnets_keyed;
        neurons_keyed = h.neurons_keyed;
        snapshots_keyed = h.snapshots_keyed;
        metrics_keyed = h.metrics_keyed;
        weights_keyed =
            sync_links-IsKeyed s.neuron_cache block netuid meta.weights s.weights h.weights_keyed;
        bonds_keyed =
            sync_links-IsKeyed s.neuron_cache block netuid meta.bonds s.bonds h.bonds_keyed;
        collaterals_keyed = v;
        dumps_keyed = h.dumps_keyed;
      }))

-- A new service has nothing cached.
pub new_service-IsValid : (s : State) → IsValid s → IsValid (new_service s)
unfolding new_service IsCoherent cached
new_service-IsValid s h = record {
  keys_valid = (h.keys_valid.0, (λ a x e. cc, λ a x e. cc, λ a x e. cc));
  blocks_keyed = h.blocks_keyed;
  subnets_keyed = h.subnets_keyed;
  neurons_keyed = h.neurons_keyed;
  snapshots_keyed = h.snapshots_keyed;
  metrics_keyed = h.metrics_keyed;
  weights_keyed = h.weights_keyed;
  bonds_keyed = h.bonds_keyed;
  collaterals_keyed = h.collaterals_keyed;
  dumps_keyed = h.dumps_keyed;
}

module _ (now : ℕ) (zone : ℕ → ℕ) where
  sync_all-IsValid :
      (meta : Metagraph) (dump : DumpMetadata) (s : State)
      → IsValid s
      → AfterOk (λ q. IsValid q.1) (sync_all now zone meta dump s)
  unfolding sync_all
  sync_all-IsValid meta dump s h =
      AfterOk-bind
        (sync_subnet-IsValid now zone meta.subnet s.keys s.subnets h.keys_valid h.subnets_keyed)
        (λ subnet v.
          AfterOk-bind
            (sync_neurons-IsValid now _ _ meta.neurons initial _ (record {
              keys_valid = v.0;
              blocks_keyed = sync_block-IsKeyed meta.block dump s.blocks h.blocks_keyed;
              subnets_keyed = v.1;
              neurons_keyed = h.neurons_keyed;
              snapshots_keyed = h.snapshots_keyed;
              metrics_keyed = h.metrics_keyed;
              weights_keyed = h.weights_keyed;
              bonds_keyed = h.bonds_keyed;
              collaterals_keyed = h.collaterals_keyed;
              dumps_keyed = h.dumps_keyed;
            }))
            (λ looped w. AfterOk-bind (sync_relations-IsValid meta _ _ looped.0 looped.1 w) (λ r x.
              AfterOk-ok (record {
                keys_valid = (
                  flush_hotkey_last_seen-IsUnique now r.1.keys x.keys_valid.0,
                  flush_hotkey_last_seen-IsCoherent now r.1.keys x.keys_valid.1,
                );
                blocks_keyed = x.blocks_keyed;
                subnets_keyed = x.subnets_keyed;
                neurons_keyed = x.neurons_keyed;
                snapshots_keyed = x.snapshots_keyed;
                metrics_keyed = x.metrics_keyed;
                weights_keyed = x.weights_keyed;
                bonds_keyed = x.bonds_keyed;
                collaterals_keyed = x.collaterals_keyed;
                dumps_keyed = sync_metagraph_dump-IsKeyed dump _ subnet.0 r.1.dumps x.dumps_keyed;
              }))))

  -- Storing a metagraph, whatever it holds and whether it fails or not, keeps every unique constraint
  -- of the tables, and the cached keys keep the numbers of their rows.
  pub sync_metagraph-IsValid :
      (meta : Metagraph) (dump : DumpMetadata) (s : State)
      → IsValid s
      → IsValid (sync_metagraph now zone meta dump s).1
  unfolding sync_metagraph
  sync_metagraph-IsValid meta dump s h = elim (Result-cases (sync_all now zone meta dump s)) [
    | inl e ↦ rw (e, sync_metagraph) (new_service-IsValid s h)
    | inr (q, e) ↦ rw (e, sync_metagraph) ((sync_all-IsValid meta dump s h).after q e)
  ]

  -- The end of the transaction that did not fail.
  pub sync_metagraph-ok :
      (meta : Metagraph) (dump : DumpMetadata) (s : State) {t : Stats} {s' : State}
      → sync_metagraph now zone meta dump s ≡ (ok t, s')
      → sync_all now zone meta dump s ≡ ok (t, s')
  unfolding sync_metagraph
  sync_metagraph-ok meta dump s {t} {s'} e = elim (Result-cases (sync_all now zone meta dump s)) [
    | inl f ↦ failed (rw (f, sync_metagraph) at e)
    | inr (q, f) ↦ f ∙ done q (rw (f, sync_metagraph) at e)
  ]
    where
      failed :
          ◌≡◌ {A = Result Stats × State} (raised, new_service s) (ok t, s')
          → sync_all now zone meta dump s ≡ ok (t, s')
      failed g = raised_absurd (ap (λ p. p.0) g)

      done :
          (q : Stats × State)
          → ◌≡◌ {A = Result Stats × State} (ok q.0, q.1) (ok t, s')
          → ◌≡◌ {A = Result (Stats × State)} (ok q) (ok (t, s'))
      done q g = same (ok_injective (ap (λ p. p.0) g)) (ap (λ p. p.1) g)
        where
          same : q.0 ≡ t → q.1 ≡ s' → ◌≡◌ {A = Result (Stats × State)} (ok q) (ok (t, s'))
          same a b = cc
