-- ===== src/Metagraph/Sync/Keyed.antt =====
-- Each table keeps its unique constraint under the operation that changes it.
use sentinel_tower.Prelude.{
  ℕ, ◌==◌, ◌≡◌, refl, inl, inr, Bool, true, false, ◌&&◌, Option, List, [], ◌∷◌, Option-cases, arith,
}
use sentinel_tower.Prelude.Int.{ℤ}
use sentinel_tower.Prelude.Rows.{
  find_row, IsKeyed, insert-IsKeyed, update_where-IsKeyed, upsert-IsKeyed,
}
use sentinel_tower.Json.{Result, ok, AfterOk, AfterOk-ok, AfterOk-bind}
use sentinel_tower.Metagraph.Keys.Unique.{update_or_create-IsKeyed}
use sentinel_tower.Metagraph.Relations.{
  NeuronCache, create_new, link_key, collateral_key, sync_links, collaterals_to_create,
  sync_collaterals,
}
use sentinel_tower.Metagraph.Rows.{
  Block, Subnet, Neuron, Measures, MechanismMetrics, Link, Collateral, MetagraphDump, State,
  is_block, is_subnet, is_neuron, is_snapshot, is_metrics, is_link, is_collateral, is_dump,
  BlockDto, SubnetDto, MechanismDto, LinkDto, CollateralDto,
}
use sentinel_tower.Metagraph.Tables.{Table}
use sentinel_tower.Metagraph.Sync.{DumpMetadata, fill_block, sync_block, fill_subnet, put_subnet}
use sentinel_tower.Metagraph.Sync.Run.{
  renew_neuron, put_neuron, sync_neuron_snapshot, sync_mechanism_metrics, sync_mechanisms,
  sync_metagraph_dump,
}

pub eq_of_test : (a b : ℕ) → (a == b) ≡ true → a ≡ b
eq_of_test a b h = ground arith

pub both : (x y : Bool) → (x && y) ≡ true → (x ≡ true) × (y ≡ true)
both true true h = (refl, refl)
both true false h = (refl, h)
both false y h = (h, cc)

pub own_pair : (k : ℕ × ℕ) (a b : ℕ) → ((k.0 == a) && (k.1 == b)) ≡ true → k ≡ (a, b)
own_pair k a b h =
    let t = both (k.0 == a) (k.1 == b) h in pair (eq_of_test k.0 a t.0) (eq_of_test k.1 b t.1)
  where
    pair : k.0 ≡ a → k.1 ≡ b → k ≡ (a, b)
    pair p q = cc

pub own_triple :
    (k : ℕ × ℕ × ℕ) (a b c : ℕ) → ((k.0 == a) && (k.1 == b) && (k.2 == c)) ≡ true → k ≡ (a, b, c)
own_triple k a b c h =
    let t = both ((k.0 == a) && (k.1 == b)) (k.2 == c) h in
    let u = both (k.0 == a) (k.1 == b) t.0 in
    same (eq_of_test k.0 a u.0) (eq_of_test k.1 b u.1) (eq_of_test k.2 c t.1)
  where
    same : k.0 ≡ a → k.1 ≡ b → k.2 ≡ c → k ≡ (a, b, c)
    same p q r = cc

own_link :
    (k : ℕ × ℕ × ℕ × ℕ) (a b c d : ℕ)
    → ((k.0 == a) && (k.1 == b) && (k.2 == c) && (k.3 == d)) ≡ true
    → k ≡ (a, b, c, d)
own_link k a b c d h =
    let t = both ((k.0 == a) && (k.1 == b) && (k.2 == c)) (k.3 == d) h in
    let u = both ((k.0 == a) && (k.1 == b)) (k.2 == c) t.0 in
    let v = both (k.0 == a) (k.1 == b) u.0 in
    same (eq_of_test k.0 a v.0) (eq_of_test k.1 b v.1) (eq_of_test k.2 c u.1) (eq_of_test k.3 d t.1)
  where
    same : k.0 ≡ a → k.1 ≡ b → k.2 ≡ c → k.3 ≡ d → k ≡ (a, b, c, d)
    same p q r e = cc

pub sync_block-IsKeyed :
    (dto : BlockDto) (dump : DumpMetadata) (rows : List Block)
    → IsKeyed is_block rows
    → IsKeyed is_block (sync_block dto dump rows).1
unfolding sync_block fill_block
sync_block-IsKeyed dto dump rows h =
    elim (Option-cases (find_row (is_block dto.block_number) rows)) [
      | inl e ↦
          rw (e, sync_block)
            (insert-IsKeyed is_block dto.block_number _ rows (λ k t. eq_of_test k _ t) e h)
      | inr (b, e) ↦
          rw (e, sync_block)
            (update_where-IsKeyed is_block (is_block dto.block_number) (fill_block dto dump) rows
              (λ k r. refl) h)
    ]

pub put_subnet-IsKeyed :
    (dto : SubnetDto) (owner registered : Option ℕ) (emission : ℤ) (rows : List Subnet)
    → IsKeyed is_subnet rows
    → IsKeyed is_subnet (put_subnet dto owner registered emission rows).1
unfolding put_subnet fill_subnet
put_subnet-IsKeyed dto owner registered emission rows h =
    elim (Option-cases (find_row (is_subnet dto.netuid) rows)) [
      | inl e ↦
          rw (e, put_subnet)
            (insert-IsKeyed is_subnet dto.netuid _ rows (λ k t. eq_of_test k _ t) e h)
      | inr (b, e) ↦
          rw (e, put_subnet)
            (update_where-IsKeyed is_subnet (is_subnet dto.netuid)
              (fill_subnet dto owner registered emission) rows (λ k r. refl) h)
    ]

pub whatever : {A : Type 0} (r : Result A) → AfterOk (λ a. r ≡ ok a) r
whatever r = record { after = λ a e. e }

pub create_new-IsKeyed :
    {K R : Type 0} (matches : K → R → Bool) (key : R → K)
    → ((k : K) (r : R) → matches k r ≡ true → k ≡ key r)
    → (new rows : List R) → IsKeyed matches rows
    → IsKeyed matches (create_new matches key new rows)
unfolding create_new
create_new-IsKeyed matches key own [] rows h = h
create_new-IsKeyed matches key own (r ∷ rs) rows h =
    elim (Option-cases (find_row (matches (key r)) rows)) [
      | inl e ↦
          rw (e, create_new)
            (create_new-IsKeyed matches key own rs (r ∷ rows)
              (insert-IsKeyed matches (key r) r rows (λ k. own k r) e h))
      | inr (x, e) ↦ rw (e, create_new) (create_new-IsKeyed matches key own rs rows h)
    ]

pub sync_links-IsKeyed :
    (cache : NeuronCache) (block netuid : ℕ) (ls : List LinkDto) (rows : List Link)
    → IsKeyed is_link rows
    → IsKeyed is_link (sync_links cache block netuid ls rows).1
unfolding sync_links
sync_links-IsKeyed cache block netuid ls rows h =
    create_new-IsKeyed is_link link_key (λ k r. own_link k _ _ _ _) _ rows h

pub sync_collaterals-IsKeyed :
    (cache : NeuronCache) (block netuid : ℕ) (cs : List CollateralDto) (rows : List Collateral)
    → IsKeyed is_collateral rows
    → AfterOk (λ q. IsKeyed is_collateral q.1) (sync_collaterals cache block netuid cs rows)
unfolding sync_collaterals
sync_collaterals-IsKeyed cache block netuid cs rows h =
    AfterOk-bind (whatever (collaterals_to_create cache block netuid cs)) (λ new e.
      AfterOk-ok
        (create_new-IsKeyed is_collateral collateral_key (λ k r. own_triple k _ _ _) new rows h))

pub sync_mechanisms-IsKeyed :
    (snapshot : ℕ) (ms : List MechanismDto) (rows : List MechanismMetrics)
    → IsKeyed is_metrics rows
    → IsKeyed is_metrics (sync_mechanisms snapshot ms rows)
unfolding sync_mechanisms sync_mechanism_metrics
sync_mechanisms-IsKeyed snapshot [] rows h = h
sync_mechanisms-IsKeyed snapshot (m ∷ ms) rows h =
    sync_mechanisms-IsKeyed snapshot ms _ (
      upsert-IsKeyed is_metrics (snapshot, m.mech_id) _ _ rows (λ k. own_pair k _ _) (λ k r. refl)
        h)

pub put_neuron-IsKeyed :
    (k : ℕ × ℕ) (uid : ℕ) (evm : Option ℕ) (t : Table Neuron)
    → IsKeyed is_neuron t.rows
    → IsKeyed is_neuron (put_neuron k uid evm t).1.rows
unfolding put_neuron renew_neuron
put_neuron-IsKeyed k uid evm t h =
    update_or_create-IsKeyed is_neuron k
      (λ i. record { id = i; hotkey_id = k.0; subnet_id = k.1; uid = uid; evm_key_id = evm })
      (λ j n. own_pair j k.0 k.1) (renew_neuron uid evm) t (λ j r. refl) h

pub sync_neuron_snapshot-IsKeyed :
    (neuron block : ℕ) (m : Measures) (s : State)
    → IsKeyed is_snapshot s.snapshots.rows
    → IsKeyed is_snapshot (sync_neuron_snapshot neuron block m s).1.snapshots.rows
unfolding sync_neuron_snapshot
sync_neuron_snapshot-IsKeyed neuron block m s h =
    update_or_create-IsKeyed is_snapshot (neuron, block)
      (λ i. record { id = i; neuron_id = neuron; block_id = block; measures = m })
      (λ j n. own_pair j neuron block) (λ r. record r { measures = m }) s.snapshots (λ j r. refl) h

pub sync_metagraph_dump-IsKeyed :
    (dump : DumpMetadata) (block : ℕ) (subnet : Subnet) (rows : List MetagraphDump)
    → IsKeyed is_dump rows
    → IsKeyed is_dump (sync_metagraph_dump dump block subnet rows)
unfolding sync_metagraph_dump
sync_metagraph_dump-IsKeyed dump block subnet rows h =
    upsert-IsKeyed is_dump (dump.netuid, block) _ _ rows (λ k. own_pair k _ _) (λ k r. refl) h
