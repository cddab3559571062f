-- ===== src/Metagraph/Burn/Anchored.antt =====
-- Every meta epoch has its block: the meta epochs that `meta_epoch_for_block` makes.
use sentinel_tower.Prelude.{
  ℕ, ◌==◌, ◌≡◌, refl, sym, subst, inl, inr, ◌⊎◌, true, false, ◌||◌, none, some, List, Bool-cases,
  Option-cases, arith,
}
use sentinel_tower.Prelude.Int.{ℤ, pos, negsuc}
use sentinel_tower.Prelude.Rows.{find_row, IsKeyed, insert-IsKeyed, find_row-insert}
use sentinel_tower.Epoch.Position.{meta_epoch_block}
use sentinel_tower.Metagraph.Keys.{is_among}
use sentinel_tower.Metagraph.Rows.{Block, Subnet, State, is_block, is_subnet}
use sentinel_tower.Metagraph.Sync.Keyed.{eq_of_test}
use sentinel_tower.Metagraph.Sync.KeysValid.{IsValid}
use sentinel_tower.Metagraph.Burn.{
  Burns, is_burn, is_emission, Providers, recover_block_timestamp, add_block, add_epoch,
  meta_epoch_at, meta_epoch_for_block,
}

-- Every meta epoch has its block.
abbrev pub HasBlocks : List ℕ → List Block → Type 0
HasBlocks epochs blocks =
    (a : ℕ) → is_among a epochs ≡ true → (b : Block) × (find_row (is_block a) blocks ≡ some b)

pub record IsValidBurns (s : Burns) : Type 0 where
  pub state_valid : IsValid s.state
  pub burns_keyed : IsKeyed is_burn s.burns
  pub emissions_keyed : IsKeyed is_emission s.emissions
  pub epochs_anchored : HasBlocks s.meta_epochs s.state.blocks

with_blocks :
    (s : State) (blocks : List Block)
    → IsValid s
    → IsKeyed is_block blocks
    → IsValid (record s { blocks = blocks })
with_blocks s blocks h k = record {
  keys_valid = h.keys_valid;
  blocks_keyed = k;
  subnets_keyed = h.subnets_keyed;
  neurons_keyed = h.neurons_keyed;
  snapshots_keyed = h.snapshots_keyed;
  metrics_keyed = h.metrics_keyed;
  weights_keyed = h.weights_keyed;
  bonds_keyed = h.bonds_keyed;
  collaterals_keyed = h.collaterals_keyed;
  dumps_keyed = h.dumps_keyed;
}

pub with_subnets :
    (s : State) (subnets : List Subnet)
    → IsValid s
    → IsKeyed is_subnet subnets
    → IsValid (record s { subnets = subnets })
with_subnets s subnets h k = record {
  keys_valid = h.keys_valid;
  blocks_keyed = h.blocks_keyed;
  subnets_keyed = k;
  neurons_keyed = h.neurons_keyed;
  snapshots_keyed = h.snapshots_keyed;
  metrics_keyed = h.metrics_keyed;
  weights_keyed = h.weights_keyed;
  bonds_keyed = h.bonds_keyed;
  collaterals_keyed = h.collaterals_keyed;
  dumps_keyed = h.dumps_keyed;
}

-- A new meta epoch whose block is there.
add_epoch-IsValidBurns :
    (a : ℕ) (s : Burns)
    → (b : Block) × (find_row (is_block a) s.state.blocks ≡ some b)
    → IsValidBurns s
    → IsValidBurns (add_epoch a s)
unfolding is_among
add_epoch-IsValidBurns a s found h = record {
  state_valid = h.state_valid;
  burns_keyed = h.burns_keyed;
  emissions_keyed = h.emissions_keyed;
  epochs_anchored = λ c t. go c (Bool-cases (c == a)) t;
}
  where
    go :
        (c : ℕ)
        → ((c == a) ≡ true) ⊎ ((c == a) ≡ false)
        → ((c == a) || is_among c s.meta_epochs) ≡ true
        → (x : Block) × (find_row (is_block c) s.state.blocks ≡ some x)
    go c (inl t) g =
        subst (λ n. (x : Block) × (find_row (is_block n) s.state.blocks ≡ some x))
          (sym (eq_of_test c a t)) found
    go c (inr f) g = h.epochs_anchored c (rw f at g)

add_block-IsValidBurns :
    (a t : ℕ) (s : Burns)
    → find_row (is_block a) s.state.blocks ≡ none
    → IsValidBurns s
    → IsValidBurns (add_block a t s)
unfolding add_block
add_block-IsValidBurns a t s e h = record {
  state_valid = with_blocks s.state _ h.state_valid (
      insert-IsKeyed is_block a _ s.state.blocks (λ k u. eq_of_test k a u) e
        h.state_valid.blocks_keyed);
  burns_keyed = h.burns_keyed;
  emissions_keyed = h.emissions_keyed;
  epochs_anchored = λ c u.
      let old = h.epochs_anchored c u in
      (old.0, find_row-insert is_block a c _ s.state.blocks (λ v. eq_of_test c a v) e old.1);
}

add_block-found :
    (a t : ℕ) (s : Burns)
    → (b : Block) × (find_row (is_block a) (add_block a t s).state.blocks ≡ some b)
unfolding add_block find_row
add_block-found a t s = (
  record { number = a; timestamp = some t; dump_started_at = none; dump_finished_at = none },
  rw (test_self a) refl,
)
  where
    test_self : (n : ℕ) → (n == n) ≡ true
    test_self n = ground arith

meta_epoch_at-IsValidBurns :
    (ps : Providers) (a : ℕ) (s : Burns) → IsValidBurns s → IsValidBurns (meta_epoch_at ps a s).1
unfolding meta_epoch_at add_block find_row
meta_epoch_at-IsValidBurns ps a s h = elim (Bool-cases (is_among a s.meta_epochs)) [
  | inl t ↦ rw (t, meta_epoch_at) h
  | inr f ↦ elim (Option-cases (find_row (is_block a) s.state.blocks)) [
    | inr (b, e) ↦ rw (f, e, meta_epoch_at) (add_epoch-IsValidBurns a s (b, e) h)
    | inl e ↦ elim (Option-cases (recover_block_timestamp ps a)) [
      | inl g ↦ rw (f, e, g, meta_epoch_at) h
      | inr (t, g) ↦
          rw (f, e, g, meta_epoch_at)
            (add_epoch-IsValidBurns a (add_block a t s) (add_block-found a t s)
              (add_block-IsValidBurns a t s e h))
    ]
  ]
]

pub meta_epoch_for_block-IsValidBurns :
    (ps : Providers) (block : ℕ) (s : Burns)
    → IsValidBurns s
    → IsValidBurns (meta_epoch_for_block ps block s).1
unfolding meta_epoch_for_block
meta_epoch_for_block-IsValidBurns ps block s h = go (meta_epoch_block (pos block)) refl
  where
    go :
        (z : ℤ)
        → meta_epoch_block (pos block) ≡ z
        → IsValidBurns (meta_epoch_for_block ps block s).1
    go (negsuc m) e = rw (e, meta_epoch_for_block) h
    go (pos a) e = rw (e, meta_epoch_for_block) (meta_epoch_at-IsValidBurns ps a s h)
