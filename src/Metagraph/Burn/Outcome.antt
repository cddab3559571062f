-- ===== src/Metagraph/Burn/Outcome.antt =====
-- What `sync_burn` writes, and when.
use Prim.Native.String.{String}
use sentinel_tower.Prelude.{
  ℕ, ◌==◌, ◌≡◌, refl, sym, ap, ◌∙◌, inl, inr, Bool, true, false, Option, none, some, List, [], ◌∷◌,
  map, filter, not, length, Bool-cases, Option-cases, arith,
}
use sentinel_tower.Prelude.Int.{ℤ, pos, negsuc}
use sentinel_tower.Prelude.Rows.{find_row, update_where, upsert, upsert-found}
use sentinel_tower.Epoch.Position.{root_netuid, is_subnet_epoch_start, meta_epoch_block}
use sentinel_tower.Json.{Json}
use sentinel_tower.Metagraph.Keys.{is_among}
use sentinel_tower.Metagraph.Rows.{MetagraphDump, is_block, is_subnet, is_dump}
use sentinel_tower.Metagraph.Burn.{
  SubnetBurn, Burns, is_burn, Providers, recover_block_timestamp, add_block, meta_epoch_at,
  meta_epoch_for_block, Floats, float_zero, float_one, clamp, MechanismShares, per_mechanism_shares,
  owner_coldkey, put_burn, burn_from_dump, precedes_epochs, sync_burn,
}

-- Not below 0 and not above 1.
abbrev pub InUnit : Floats → Json → Type 0
InUnit fl v = (fl.below v float_zero ≡ false) × (fl.below float_one v ≡ false)

-- What a comparison of floats does.
pub record IsOrder (fl : Floats) : Type 0 where
  pub asymmetric : (a b : Json) → fl.below a b ≡ true → fl.below b a ≡ false
  pub zero_below_one : fl.below float_zero float_one ≡ true

irreflexive : (fl : Floats) → IsOrder fl → (a : Json) → fl.below a a ≡ false
irreflexive fl o a = elim (Bool-cases (fl.below a a)) [ inl t ↦ o.asymmetric a a t | inr f ↦ f ]

pub clamp-InUnit : (fl : Floats) (v : Json) → IsOrder fl → InUnit fl (clamp fl v)
unfolding clamp
clamp-InUnit fl v o = elim (Bool-cases (fl.below float_zero v)) [
  | inl t ↦ elim (Bool-cases (fl.below v float_one)) [
    | inl u ↦ rw (t, u) (o.asymmetric float_zero v t, o.asymmetric v float_one u)
    | inr u ↦
        rw (t, u) (o.asymmetric float_zero float_one o.zero_below_one, irreflexive fl o float_one)
  ]
  | inr f ↦
      rw (f, o.zero_below_one)
        (irreflexive fl o float_zero, o.asymmetric float_zero float_one o.zero_below_one)
]

-- A burn that is written: of a subnet other than the root, at the start of an epoch of it, from a dump
-- of that block, under the meta epoch of the block, with shares from 0 to 1, in the table, and beside the
-- rows that it had.
pub record IsWritten (fl : Floats) (block netuid : ℕ) (s s' : Burns) (b : SubnetBurn) : Type 0 where
  pub other_than_root : (netuid == root_netuid) ≡ false
  pub starts_epoch : is_subnet_epoch_start (pos block) netuid ≡ true
  pub has_dump : (d : MetagraphDump) × (find_row (is_dump (netuid, block)) s.state.dumps ≡ some d)
  pub anchored : meta_epoch_block (pos block) ≡ pos b.meta_epoch_id
  pub burn_in_unit : InUnit fl b.burn
  pub superburn_in_unit : InUnit fl b.superburn
  pub in_table :
      (r : SubnetBurn) × (find_row (is_burn (netuid, b.meta_epoch_id)) s'.burns ≡ some r)
      × (r.burn ≡ b.burn)
      × (r.superburn ≡ b.superburn)
      × (r.source_block_number ≡ block)
  pub others_stay :
      filter (λ r. not (is_burn (netuid, b.meta_epoch_id) r)) s'.burns
      ≡ filter (λ r. not (is_burn (netuid, b.meta_epoch_id) r)) s.burns

abbrev pub IsOutcome : Floats → ℕ → ℕ → Burns → Option SubnetBurn × Burns → Type 0
IsOutcome fl block netuid s (none, s') = s'.burns ≡ s.burns
IsOutcome fl block netuid s (some b, s') = IsWritten fl block netuid s s' b

-- The burns are left alone; an epoch that is given is the one asked for.
abbrev GivesEpoch : ℕ → Burns → Option ℕ × Burns → Type 0
GivesEpoch a s (none, s') = s'.burns ≡ s.burns
GivesEpoch a s (some e, s') = (e ≡ a) × (s'.burns ≡ s.burns)

meta_epoch_at-GivesEpoch :
    (ps : Providers) (a : ℕ) (s : Burns) → GivesEpoch a s (meta_epoch_at ps a s)
unfolding meta_epoch_at add_block
meta_epoch_at-GivesEpoch ps a s = elim (Bool-cases (is_among a s.meta_epochs)) [
  | inl t ↦ rw (t, meta_epoch_at) (refl, refl)
  | inr f ↦ elim (Option-cases (find_row (is_block a) s.state.blocks)) [
    | inr (b, e) ↦ rw (f, e, meta_epoch_at) (refl, refl)
    | inl e ↦ elim (Option-cases (recover_block_timestamp ps a)) [
      | inl g ↦ rw (f, e, g, meta_epoch_at) refl
      | inr (t, g) ↦ rw (f, e, g, meta_epoch_at) (refl, refl)
    ]
  ]
]

-- The meta epoch of a block starts at the block's anchor.
abbrev GivesAnchor : ℕ → Burns → Option ℕ × Burns → Type 0
GivesAnchor block s (none, s') = s'.burns ≡ s.burns
GivesAnchor block s (some e, s') = (meta_epoch_block (pos block) ≡ pos e) × (s'.burns ≡ s.burns)

meta_epoch_for_block-GivesAnchor :
    (ps : Providers) (block : ℕ) (s : Burns) → GivesAnchor block s (meta_epoch_for_block ps block s)
unfolding meta_epoch_for_block
meta_epoch_for_block-GivesAnchor ps block s = go (meta_epoch_block (pos block)) refl
  where
    lift :
        (a : ℕ) (p : Option ℕ × Burns)
        → meta_epoch_block (pos block) ≡ pos a
        → GivesEpoch a s p
        → GivesAnchor block s p
    lift a (none, s') e h = h
    lift a (some x, s') e h = (e ∙ ap pos (sym h.0), h.1)

    go :
        (z : ℤ)
        → meta_epoch_block (pos block) ≡ z
        → GivesAnchor block s (meta_epoch_for_block ps block s)
    go (negsuc m) e = rw (e, meta_epoch_for_block) refl
    go (pos a) e =
        rw (e, meta_epoch_for_block)
          (lift a (meta_epoch_at ps a s) e (meta_epoch_at-GivesEpoch ps a s))

module _ {R : Type 0} (p : R → Bool) (f : R → R) where
  others-update_where :
      (rows : List R)
      → ((x : R) → p (f x) ≡ p x)
      → filter (λ r. not (p r)) (update_where p f rows) ≡ filter (λ r. not (p r)) rows
  unfolding update_where
  others-update_where [] same = refl
  others-update_where (x ∷ rows) same = elim (Bool-cases (p x)) [
    | inl t ↦ rw (t, same x, t) (others-update_where rows same)
    | inr n ↦ rw (n, n) (ap (λ xs. x ∷ xs) (others-update_where rows same))
  ]

  others-upsert :
      (new : R) (rows : List R)
      → p new ≡ true
      → ((x : R) → p (f x) ≡ p x)
      → filter (λ r. not (p r)) (upsert p f new rows) ≡ filter (λ r. not (p r)) rows
  unfolding upsert
  others-upsert new rows own same = elim (Option-cases (find_row p rows)) [
    | inl e ↦ rw (e, own, upsert) refl
    | inr (r, e) ↦ rw (e, upsert) (others-update_where rows same)
  ]

test_self : (n : ℕ) → (n == n) ≡ true
test_self n = ground arith

module _ (fl : Floats) (ps : Providers) (superburn_coldkey : Option String) (order : IsOrder fl)
    (block netuid : ℕ) (s : Burns) where
  put_burn-IsOutcome :
      (shares : List MechanismShares) (p : Option ℕ × Burns)
      → (netuid == root_netuid) ≡ false
      → is_subnet_epoch_start (pos block) netuid ≡ true
      → (d : MetagraphDump) × (find_row (is_dump (netuid, block)) s.state.dumps ≡ some d)
      → GivesAnchor block s p
      → IsOutcome fl block netuid s (put_burn fl ps superburn_coldkey block netuid shares p)
  unfolding put_burn
  put_burn-IsOutcome shares (none, t) root first dump h = h
  put_burn-IsOutcome shares (some epoch, t) root first dump h =
      let mean : (MechanismShares → Json) → Json =
        λ part. clamp fl (fl.over (fl.sum (map part shares)) (length shares)) in
      let found =
        upsert-found (is_burn (netuid, epoch))
          (λ b. record b {
            source_block_number = block;
            burn = mean (λ h. h.burn);
            superburn = mean (λ h. h.superburn);
          })
          (record {
            subnet_id = netuid;
            meta_epoch_id = epoch;
            source_block_number = block;
            burn = mean (λ h. h.burn);
            superburn = mean (λ h. h.superburn);
          })
          t.burns
          (λ r.
            (r.burn ≡ mean (λ h. h.burn))
            × (r.superburn ≡ mean (λ h. h.superburn))
            × (r.source_block_number ≡ block))
          (rw (test_self netuid, test_self epoch) refl) (λ x. refl) (refl, refl, refl)
          (λ x. (refl, refl, refl)) in
      record {
        other_than_root = root;
        starts_epoch = first;
        has_dump = dump;
        anchored = h.0;
        burn_in_unit = clamp-InUnit fl _ order;
        superburn_in_unit = clamp-InUnit fl _ order;
        in_table = (found.0, found.1, found.2.0, found.2.1, found.2.2);
        others_stay =
            others-upsert (is_burn (netuid, epoch)) _ _ t.burns
              (rw (test_self netuid, test_self epoch) refl) (λ x. refl)
            ∙ ap (filter (λ r. not (is_burn (netuid, epoch) r))) h.1;
      }

  burn_from_dump-IsOutcome :
      (d : MetagraphDump)
      → (netuid == root_netuid) ≡ false
      → is_subnet_epoch_start (pos block) netuid ≡ true
      → find_row (is_dump (netuid, block)) s.state.dumps ≡ some d
      → IsOutcome fl block netuid s (burn_from_dump fl ps superburn_coldkey block netuid s d)
  unfolding burn_from_dump
  burn_from_dump-IsOutcome d root first e = go shares refl
    where
      shares : List MechanismShares
      shares =
          per_mechanism_shares fl s.state block netuid (owner_coldkey s.state d) superburn_coldkey

      go :
          (hs : List MechanismShares)
          → shares ≡ hs
          → IsOutcome fl block netuid s (burn_from_dump fl ps superburn_coldkey block netuid s d)
      go [] f = rw (f, burn_from_dump) refl
      go (h ∷ hs) f =
          rw (f, burn_from_dump)
            (put_burn-IsOutcome (h ∷ hs) _ root first (d, e)
              (meta_epoch_for_block-GivesAnchor ps block s))

  -- If `<` on floats is asymmetric and 0.0 < 1.0, then `sync_burn` either leaves the burns alone, or
  -- writes one row, of a subnet other than the root and at the start of an epoch of it, for which the
  -- block has a dump; the row stands under the meta epoch of the block, and its two shares are not
  -- below 0 and not above 1, also where the mean is no number. All other rows stay as they are, in
  -- their order.
  pub sync_burn-IsOutcome :
      IsOutcome fl block netuid s (sync_burn fl ps superburn_coldkey block netuid s)
  unfolding sync_burn
  sync_burn-IsOutcome = root (netuid == root_netuid) refl
    where
      Goal : Type 0
      Goal = IsOutcome fl block netuid s (sync_burn fl ps superburn_coldkey block netuid s)

      stored :
          (netuid == root_netuid) ≡ false
          → is_subnet_epoch_start (pos block) netuid ≡ true
          → precedes_epochs fl ps superburn_coldkey block ≡ false
          → Goal
      stored a b c = elim (Option-cases (find_row (is_subnet netuid) s.state.subnets)) [
        | inl e ↦ rw (a, b, c, e, sync_burn) refl
        | inr (x, e) ↦ elim (Option-cases (find_row (is_dump (netuid, block)) s.state.dumps)) [
          | inl f ↦ rw (a, b, c, e, f, sync_burn) refl
          | inr (d, f) ↦ rw (a, b, c, e, f, sync_burn) (burn_from_dump-IsOutcome d a b f)
        ]
      ]

      anchored :
          (netuid == root_netuid) ≡ false
          → is_subnet_epoch_start (pos block) netuid ≡ true
          → (c : Bool) → precedes_epochs fl ps superburn_coldkey block ≡ c
          → Goal
      anchored a b true e = rw (a, b, e, sync_burn) refl
      anchored a b false e = stored a b e

      first :
          (netuid == root_netuid) ≡ false
          → (b : Bool) → is_subnet_epoch_start (pos block) netuid ≡ b
          → Goal
      first a true e = anchored a e (precedes_epochs fl ps superburn_coldkey block) refl
      first a false e = rw (a, e, sync_burn) refl

      root : (a : Bool) → (netuid == root_netuid) ≡ a → Goal
      root true e = rw (e, sync_burn) refl
      root false e = first e (is_subnet_epoch_start (pos block) netuid) refl
