-- ===== src/Metagraph/Sync/History.antt =====
-- What `sync_metagraph` never takes back: the times of a block, and what is known of a subnet.
use sentinel_tower.Prelude.{
  ℕ, ◌≡◌, refl, sym, ◌∙◌, subst, inl, inr, Bool, true, false, Option, none, some, List, [], ◌∷◌,
  if◌then◌else◌, Option-cases,
}
use sentinel_tower.Prelude.Int.{ℤ}
use sentinel_tower.Prelude.Rows.{find_row, find_row-insert, find_row-update_keeps}
use sentinel_tower.Json.{Result-cases, AfterOk, AfterOk-ok, AfterOk-raised, AfterOk-bind}
use sentinel_tower.Metagraph.Amounts.{to_rao}
use sentinel_tower.Metagraph.Keys.{Hotkey, Keys}
use sentinel_tower.Metagraph.Relations.{sync_collaterals}
use sentinel_tower.Metagraph.Rows.{
  Block, Subnet, State, is_block, is_subnet, BlockDto, SubnetDto, NeuronDto, HotkeyDto, SnapshotDto,
  Metagraph,
}
use sentinel_tower.Metagraph.Sync.{
  DumpMetadata, fill_block, sync_block, sync_owner, make_aware, fill_subnet, put_subnet,
  sync_subnet, measures_of,
}
use sentinel_tower.Metagraph.Sync.Run.{
  Stats, initial, cached_neuron, hotkey_for, neuron_of_hotkey, sync_neuron, sync_neuron_snapshot,
  sync_keys, count_neuron, sync_one, sync_neurons, sync_relations, sync_all, new_service,
  sync_metagraph,
}
use sentinel_tower.Metagraph.Sync.Keyed.{whatever}
use sentinel_tower.Metagraph.Sync.Kept.{
  KeepsBlock, KeepsSubnet, fill_block-keeps, fill_subnet-keeps, KeepsBlock-refl, KeepsSubnet-refl,
  eq_of_test, BlocksKept, SubnetsKept,
}

sync_block-keeps :
    (dto : BlockDto) (dump : DumpMetadata) (rows : List Block)
    → BlocksKept rows (sync_block dto dump rows).1
unfolding sync_block fill_block
sync_block-keeps dto dump rows n b found =
    elim (Option-cases (find_row (is_block dto.block_number) rows)) [
      | inl e ↦
          rw (e, sync_block)
            (
              b,
              find_row-insert is_block dto.block_number n _ rows (λ t. eq_of_test n _ t) e found,
              KeepsBlock-refl b,
            )
      | inr (c, e) ↦
          rw (e, sync_block)
            (
              _,
              find_row-update_keeps (is_block dto.block_number) (is_block n) (fill_block dto dump)
                  rows (λ x. refl) found,
              changed (is_block dto.block_number b),
            )
    ]
  where
    changed : (t : Bool) → KeepsBlock b (if t then fill_block dto dump b else b)
    changed true = fill_block-keeps dto dump b
    changed false = KeepsBlock-refl b

put_subnet-keeps :
    (dto : SubnetDto) (owner registered : Option ℕ) (emission : ℤ) (rows : List Subnet)
    → SubnetsKept rows (put_subnet dto owner registered emission rows).1
unfolding put_subnet fill_subnet
put_subnet-keeps dto owner registered emission rows n s found =
    elim (Option-cases (find_row (is_subnet dto.netuid) rows)) [
      | inl e ↦
          rw (e, put_subnet)
            (
              s,
              find_row-insert is_subnet dto.netuid n _ rows (λ t. eq_of_test n _ t) e found,
              KeepsSubnet-refl s,
            )
      | inr (c, e) ↦
          rw (e, put_subnet)
            (
              _,
              find_row-update_keeps (is_subnet dto.netuid) (is_subnet n)
                  (fill_subnet dto owner registered emission) rows (λ x. refl) found,
              changed (is_subnet dto.netuid s),
            )
    ]
  where
    changed :
        (t : Bool) → KeepsSubnet s (if t then fill_subnet dto owner registered emission s else s)
    changed true = fill_subnet-keeps dto owner registered emission s
    changed false = KeepsSubnet-refl s

-- The tables that the neurons and their relations leave alone.
abbrev Untouched : State → State → Type 0
Untouched s s' = (s'.blocks ≡ s.blocks) × (s'.subnets ≡ s.subnets) × (s'.dumps ≡ s.dumps)

neuron_of_hotkey-Untouched :
    (dto : NeuronDto) (netuid : ℕ) (hotkey : Hotkey) (s : State)
    → Untouched s (neuron_of_hotkey dto netuid hotkey s).1
unfolding neuron_of_hotkey
neuron_of_hotkey-Untouched dto netuid hotkey s =
    elim (Option-cases (cached_neuron (hotkey.id, netuid) s.neuron_cache)) [
      | inl e ↦ rw (e, neuron_of_hotkey) (refl, refl, refl)
      | inr (n, e) ↦ rw (e, neuron_of_hotkey) (refl, refl, refl)
    ]

sync_neuron-Untouched :
    (now : ℕ) (dto : NeuronDto) (netuid : ℕ) (s : State)
    → AfterOk (λ q. Untouched s q.1) (sync_neuron now dto netuid s)
unfolding sync_neuron
sync_neuron-Untouched now dto netuid s = go dto.hotkey refl
  where
    go :
        (d : Option HotkeyDto)
        → dto.hotkey ≡ d
        → AfterOk (λ q. Untouched s q.1) (sync_neuron now dto netuid s)
    go none e = rw (e, sync_neuron) AfterOk-raised
    go (some d) e =
        rw (e, sync_neuron)
          (AfterOk-bind (whatever (hotkey_for now d s.keys)) (λ found v.
            AfterOk-ok
              (neuron_of_hotkey-Untouched dto netuid found.0 (record s { keys = found.1 }))))

sync_one-Untouched :
    (now block netuid : ℕ) (dto : SnapshotDto) (s : State)
    → AfterOk (Untouched s) (sync_one now block netuid dto s)
unfolding sync_one sync_neuron_snapshot
sync_one-Untouched now block netuid dto s =
    AfterOk-bind (whatever (sync_keys now dto.neuron s.keys)) (λ keys v.
      AfterOk-bind (sync_neuron-Untouched now dto.neuron netuid (record s { keys = keys }))
        (λ found w. AfterOk-bind (whatever (measures_of dto)) (λ m e. AfterOk-ok w)))

pub sync_neurons-Untouched :
    (now block netuid : ℕ) (ns : List SnapshotDto) (t : Stats) (s : State)
    → AfterOk (λ q. Untouched s q.1) (sync_neurons now block netuid ns t s)
unfolding sync_neurons
sync_neurons-Untouched now block netuid [] t s = AfterOk-ok (refl, refl, refl)
sync_neurons-Untouched now block netuid (n ∷ ns) t s =
    AfterOk-bind (sync_one-Untouched now block netuid n s) (λ s' v. record {
      after = λ q e.
          let w = (sync_neurons-Untouched now block netuid ns (count_neuron n t) s').after q e in
          (w.0 ∙ v.0, w.1 ∙ v.1, w.2 ∙ v.2);
    })

pub sync_relations-Untouched :
    (meta : Metagraph) (block netuid : ℕ) (t : Stats) (s : State)
    → AfterOk (λ q. Untouched s q.1) (sync_relations meta block netuid t s)
unfolding sync_relations
sync_relations-Untouched meta block netuid t s =
    AfterOk-bind
      (whatever (sync_collaterals s.neuron_cache block netuid meta.collaterals s.collaterals))
      (λ c e. AfterOk-ok (refl, refl, refl))

sync_subnet-keeps :
    (now : ℕ) (zone : ℕ → ℕ) (dto : SubnetDto) (keys : Keys) (rows : List Subnet)
    → AfterOk (λ q. SubnetsKept rows q.2) (sync_subnet now zone dto keys rows)
unfolding sync_subnet
sync_subnet-keeps now zone dto keys rows =
    AfterOk-bind (whatever (sync_owner now dto.owner_hotkey keys)) (λ owner v.
      AfterOk-bind (whatever (to_rao dto.alpha_out_emission)) (λ emission u.
        AfterOk-ok
          (put_subnet-keeps dto owner.0 (make_aware zone dto.registered_at) emission rows)))

module _ (now : ℕ) (zone : ℕ → ℕ) where
  sync_all-keeps :
      (meta : Metagraph) (dump : DumpMetadata) (s : State)
      → AfterOk
          (λ q. BlocksKept s.blocks q.1.blocks × SubnetsKept s.subnets q.1.subnets)
          (sync_all now zone meta dump s)
  unfolding sync_all
  sync_all-keeps meta dump s =
      AfterOk-bind (sync_subnet-keeps now zone meta.subnet s.keys s.subnets) (λ subnet v.
        AfterOk-bind (sync_neurons-Untouched now _ _ meta.neurons initial _) (λ looped w.
          AfterOk-bind (sync_relations-Untouched meta _ _ looped.0 looped.1) (λ r x. AfterOk-ok (
            subst (BlocksKept s.blocks) (sym (x.0 ∙ w.0))
                (sync_block-keeps meta.block dump s.blocks),
            subst (SubnetsKept s.subnets) (sym (x.1 ∙ w.1)) v,
          ))))

  pub sync_metagraph-keeps :
      (meta : Metagraph) (dump : DumpMetadata) (s : State)
      → BlocksKept s.blocks (sync_metagraph now zone meta dump s).1.blocks
        × SubnetsKept s.subnets (sync_metagraph now zone meta dump s).1.subnets
  unfolding sync_metagraph new_service
  sync_metagraph-keeps meta dump s = elim (Result-cases (sync_all now zone meta dump s)) [
    | inl e ↦
        rw (e, sync_metagraph)
          (λ n b f. (b, f, KeepsBlock-refl b), λ n t f. (t, f, KeepsSubnet-refl t))
    | inr (q, e) ↦ rw (e, sync_metagraph) ((sync_all-keeps meta dump s).after q e)
  ]

  -- Storing a metagraph takes nothing back, whether it fails or not. A block and a subnet that the
  -- tables hold are there afterwards; the times of the block that are known and the time of the
  -- registration stay as they were; the tempo, the emission, the price, the name and the owner of the
  -- subnet may change, but not to 0, to an empty name and to no owner where there was another.
  pub sync_metagraph-IsKept :
      (meta : Metagraph) (dump : DumpMetadata) (s : State) (n m : ℕ) {b : Block} {u : Subnet}
      → find_row (is_block n) s.blocks ≡ some b
      → find_row (is_subnet m) s.subnets ≡ some u
      → ((c : Block) × (find_row (is_block n) (sync_metagraph now zone meta dump s).1.blocks
            ≡ some c)
          × KeepsBlock b c)
        × ((v : Subnet) × (find_row (is_subnet m) (sync_metagraph now zone meta dump s).1.subnets
              ≡ some v)
            × KeepsSubnet u v)
  sync_metagraph-IsKept meta dump s n m {b} {u} e f =
      let kept = sync_metagraph-keeps meta dump s in (kept.0 n b e, kept.1 m u f)
