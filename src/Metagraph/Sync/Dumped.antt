-- ===== src/Metagraph/Sync/Dumped.antt =====
-- The dump that `sync_metagraph` records.
use sentinel_tower.Prelude.{
  ℕ, ◌==◌, ◌≡◌, refl, sym, ◌∙◌, subst, inl, inr, true, Option, some, List, Option-cases, arith,
}
use sentinel_tower.Prelude.Int.{ℤ}
use sentinel_tower.Prelude.Rows.{find_row, find_row-holds, find_row-update_where, upsert-found}
use sentinel_tower.Json.{ok, AfterOk, AfterOk-ok, AfterOk-bind}
use sentinel_tower.Metagraph.Amounts.{to_rao}
use sentinel_tower.Metagraph.Keys.{Keys}
use sentinel_tower.Metagraph.Rows.{
  Block, Subnet, State, MetagraphDump, is_block, is_subnet, is_dump, BlockDto, SubnetDto, Metagraph,
}
use sentinel_tower.Metagraph.Sync.{
  DumpMetadata, fill_block, sync_block, sync_owner, make_aware, fill_subnet, put_subnet,
  sync_subnet, position_number,
}
use sentinel_tower.Metagraph.Sync.Run.{
  Stats, initial, sync_metagraph_dump, sync_all, sync_metagraph,
}
use sentinel_tower.Metagraph.Sync.Valid.{sync_metagraph-ok}
use sentinel_tower.Metagraph.Sync.Keyed.{whatever}
use sentinel_tower.Metagraph.Sync.History.{sync_neurons-Untouched, sync_relations-Untouched}

eq_of_test : (a b : ℕ) → (a == b) ≡ true → a ≡ b
eq_of_test a b h = ground arith

test_self : (n : ℕ) → (n == n) ≡ true
test_self n = ground arith

sync_block-number :
    (dto : BlockDto) (dump : DumpMetadata) (rows : List Block)
    → (sync_block dto dump rows).0.number ≡ dto.block_number
unfolding sync_block fill_block
sync_block-number dto dump rows = elim (Option-cases (find_row (is_block dto.block_number) rows)) [
  | inl e ↦ rw (e, sync_block) refl
  | inr (b, e) ↦
      rw (e, sync_block) (sym (eq_of_test _ _ (find_row-holds (is_block dto.block_number) rows e)))
]

put_subnet-found :
    (dto : SubnetDto) (owner registered : Option ℕ) (emission : ℤ) (rows : List Subnet)
    → find_row (is_subnet dto.netuid) (put_subnet dto owner registered emission rows).1
      ≡ some (put_subnet dto owner registered emission rows).0
unfolding put_subnet fill_subnet find_row
put_subnet-found dto owner registered emission rows =
    elim (Option-cases (find_row (is_subnet dto.netuid) rows)) [
      | inl e ↦ rw (e, put_subnet) (rw (test_self dto.netuid) refl)
      | inr (s, e) ↦
          rw (e, put_subnet)
            (find_row-update_where (is_subnet dto.netuid)
              (fill_subnet dto owner registered emission) rows e (λ x t. t))
    ]

sync_subnet-found :
    (now : ℕ) (zone : ℕ → ℕ) (dto : SubnetDto) (keys : Keys) (rows : List Subnet)
    → AfterOk
        (λ q. find_row (is_subnet dto.netuid) q.2 ≡ some q.0)
        (sync_subnet now zone dto keys rows)
unfolding sync_subnet
sync_subnet-found now zone dto keys rows =
    AfterOk-bind (whatever (sync_owner now dto.owner_hotkey keys)) (λ owner v.
      AfterOk-bind (whatever (to_rao dto.alpha_out_emission)) (λ emission u.
        AfterOk-ok
          (put_subnet-found dto owner.0 (make_aware zone dto.registered_at) emission rows)))

-- The row of a dump says who owns the subnet, its tempo and the position of the block in its epoch.
pub record Records (dump : DumpMetadata) (subnet : Subnet) (d : MetagraphDump) : Type 0 where
  pub owner_recorded : d.owner_hotkey_id ≡ subnet.owner_hotkey_id
  pub tempo_recorded : d.tempo ≡ subnet.tempo
  pub position_recorded : d.epoch_position ≡ position_number dump.epoch_position
  pub start_recorded : d.started_at ≡ dump.started_at
  pub finish_recorded : d.finished_at ≡ dump.finished_at

dump-found :
    (dump : DumpMetadata) (block : ℕ) (subnet : Subnet) (rows : List MetagraphDump)
    → (d : MetagraphDump) × (find_row
          (is_dump (dump.netuid, block))
          (sync_metagraph_dump dump block subnet rows)
        ≡ some d)
      × Records dump subnet d
unfolding sync_metagraph_dump
dump-found dump block subnet rows =
    upsert-found (is_dump (dump.netuid, block)) _ _ rows (Records dump subnet)
      (rw (test_self dump.netuid, test_self block) refl) (λ x. refl)
      (record {
        owner_recorded = refl;
        tempo_recorded = refl;
        position_recorded = refl;
        start_recorded = refl;
        finish_recorded = refl;
      })
      (λ x. record {
        owner_recorded = refl;
        tempo_recorded = refl;
        position_recorded = refl;
        start_recorded = refl;
        finish_recorded = refl;
      })

-- A dump of the netuid and the block, that agrees with the row of the subnet.
abbrev pub IsDumped : Metagraph → DumpMetadata → State → Type 0
IsDumped meta dump s =
    (subnet : Subnet) × (find_row (is_subnet meta.subnet.netuid) s.subnets ≡ some subnet)
    × (d : MetagraphDump) × (find_row (is_dump (dump.netuid, meta.block.block_number)) s.dumps
        ≡ some d)
    × Records dump subnet d

module _ (now : ℕ) (zone : ℕ → ℕ) where
  sync_all-IsDumped :
      (meta : Metagraph) (dump : DumpMetadata) (s : State)
      → AfterOk (λ q. IsDumped meta dump q.1) (sync_all now zone meta dump s)
  unfolding sync_all
  sync_all-IsDumped meta dump s =
      AfterOk-bind (sync_subnet-found now zone meta.subnet s.keys s.subnets) (λ subnet v.
        AfterOk-bind (sync_neurons-Untouched now _ _ meta.neurons initial _) (λ looped w.
          AfterOk-bind (sync_relations-Untouched meta _ _ looped.0 looped.1) (λ r x. AfterOk-ok (
            let found = dump-found dump meta.block.block_number subnet.0 r.1.dumps in
            (
              subnet.0,
              subst (λ rows. find_row (is_subnet meta.subnet.netuid) rows ≡ some subnet.0)
                  (sym (x.1 ∙ w.1)) v,
              found.0,
              subst
                  (λ n.
                    find_row (is_dump (dump.netuid, meta.block.block_number))
                      (sync_metagraph_dump dump n subnet.0 r.1.dumps)
                    ≡ some found.0)
                  (sym (sync_block-number meta.block dump s.blocks)) found.1,
              found.2,
            )))))

  -- If a metagraph is stored, then there is a dump of the netuid and the block, with the owner and the
  -- tempo that the row of the subnet has then, and the position and the times of the dump.
  pub sync_metagraph-IsDumped :
      (meta : Metagraph) (dump : DumpMetadata) (s : State) {t : Stats} {s' : State}
      → sync_metagraph now zone meta dump s ≡ (ok t, s')
      → IsDumped meta dump s'
  sync_metagraph-IsDumped meta dump s {t} {s'} e =
      (sync_all-IsDumped meta dump s).after (t, s') (sync_metagraph-ok now zone meta dump s e)
