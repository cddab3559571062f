-- ===== src/Daemon/Order.antt =====
-- The order in which the daemon tries blocks.
use sentinel_tower.Prelude.{
  ℕ, zero, suc, ◌≡◌, refl, sym, ap, Bool, true, false, Option, none, some, List, [], ◌∷◌,
  Bool-cases, inl, inr, if◌then◌else◌,
}
use sentinel_tower.Prelude.Int.{ℤ, pos, pos_part, ◌+ℤ◌, ◌-ℤ◌, leb_ℤ}
use sentinel_tower.Json.{Result-cases}
use sentinel_tower.Extrinsics.Sync.{Setup, Outcome, stored, unavailable, failed}
use sentinel_tower.Daemon.{
  World, State, next_tick, drop_provider, connect_provider, after_block, store_at, attempt_block,
  process_blocks, process_to_head, turn, run,
}

-- Each block is one more than the next of the list.
abbrev pub Descends : ℤ → List ℤ → Type 0
Descends b [] = Unit
Descends b (c ∷ cs) = (b ≡ c +ℤ pos 1) × Descends c cs

-- The attempted blocks, the last one first, are consecutive and end in the last processed one.
abbrev pub Follows : Option ℤ → List ℤ → Type 0
Follows last [] = Unit
Follows none (b ∷ bs) = ⊥
Follows (some l) (b ∷ bs) = (b ≡ l) × Descends b bs

abbrev pub IsInOrder : State → Type 0
IsInOrder s = Follows s.last_processed_block s.attempted

Follows-next :
    (l : ℤ) (bs : List ℤ) → Follows (some l) bs → Follows (some (l +ℤ pos 1)) ((l +ℤ pos 1) ∷ bs)
Follows-next l [] f = (refl, tt)
Follows-next l (b ∷ bs) (e, d) = (refl, (ap (λ x. x +ℤ pos 1) (sym e), d))

connect_provider-IsInOrder :
    (w : World) (fuel : ℕ) (s : State) → IsInOrder s → IsInOrder (connect_provider w fuel s)
unfolding connect_provider next_tick drop_provider
connect_provider-IsInOrder w zero s o = o
connect_provider-IsInOrder w (suc fuel) s o = elim (Bool-cases (w.shutdown s.tick)) [
  | inl e ↦ rw e o
  | inr e ↦ elim (Bool-cases (w.connects s.tick)) [
    | inl f ↦ rw (e, f) o
    | inr f ↦ rw (e, f) (connect_provider-IsInOrder w fuel (drop_provider (next_tick s)) o)
  ]
]

module _ (setup : Setup) (w : World) where
  after_block-IsInOrder :
      (l : ℤ) (o : Outcome) (s : State)
      → Follows (some (l +ℤ pos 1)) s.attempted
      → Follows (some (l +ℤ pos 1)) (after_block (l +ℤ pos 1) o s).1.attempted
        × ((after_block (l +ℤ pos 1) o s).1.last_processed_block ≡ some (l +ℤ pos 1))
  unfolding after_block drop_provider
  after_block-IsInOrder l (stored a n) s f = (f, refl)
  after_block-IsInOrder l unavailable s f = (f, refl)
  after_block-IsInOrder l failed s f = (f, refl)

  attempt_block-IsInOrder :
      (l : ℤ) (s : State)
      → Follows (some l) s.attempted
      → Follows (some (l +ℤ pos 1)) (attempt_block setup w (l +ℤ pos 1) s).1.attempted
        × ((attempt_block setup w (l +ℤ pos 1) s).1.last_processed_block ≡ some (l +ℤ pos 1))
  unfolding attempt_block next_tick
  attempt_block-IsInOrder l s f =
      after_block-IsInOrder l (store_at setup w (l +ℤ pos 1) s).0 _ (Follows-next l s.attempted f)

  process_blocks-IsInOrder :
      (n : ℕ) (l : ℤ) (s : State)
      → Follows (some l) s.attempted
      → s.last_processed_block ≡ some l
      → IsInOrder (process_blocks setup w n (l +ℤ pos 1) s)
  unfolding process_blocks
  process_blocks-IsInOrder zero l s f e = rw e f
  process_blocks-IsInOrder (suc n) l s f e =
      let a = attempt_block-IsInOrder l s f in
      let s' = (attempt_block setup w (l +ℤ pos 1) s).1 in
      elim (Bool-cases (w.shutdown s.tick)) [
        | inl d ↦ rw (d, e) f
        | inr d ↦ elim (Bool-cases (attempt_block setup w (l +ℤ pos 1) s).0) [
          | inl g ↦ rw (d, g) (process_blocks-IsInOrder n (l +ℤ pos 1) s' a.0 a.1)
          | inr g ↦ rw (d, g) (rw a.1 a.0)
        ]
      ]

  -- The last processed block that a turn starts from.
  start-Follows :
      (head : ℤ) (last : Option ℤ) (bs : List ℤ)
      → Follows last bs
      → Follows (some (elim last as (λ o. ℤ) [ none ↦ head -ℤ pos 1 | some b ↦ b ])) bs
  start-Follows head none [] f = tt
  start-Follows head none (b ∷ bs) f = elim f [ ]
  start-Follows head (some l) bs f = f

  process_to_head-IsInOrder :
      (head : ℤ) (s : State) → IsInOrder s → IsInOrder (process_to_head setup w head s)
  unfolding process_to_head
  process_to_head-IsInOrder head s o =
      let last : ℤ = (elim s.last_processed_block [ none ↦ head -ℤ pos 1 | some b ↦ b ]) in
      let f = start-Follows head s.last_processed_block s.attempted o in
      elim (Bool-cases (leb_ℤ head last)) [
        | inl e ↦ rw e f
        | inr e ↦ rw e (
            process_blocks-IsInOrder (pos_part (head -ℤ last)) last
              (record s { last_processed_block = some last }) f refl)
      ]

  turn-IsInOrder : (s : State) → IsInOrder s → IsInOrder (turn setup w s)
  unfolding turn next_tick drop_provider
  turn-IsInOrder s o = elim (Result-cases (w.current_block s.tick)) [
    | inl e ↦ rw (e, turn) o
    | inr (head, e) ↦ rw (e, turn) (process_to_head-IsInOrder head _ o)
  ]

  -- From a state in order, and whatever the chain answers, the blocks that the daemon has tried stay
  -- consecutive numbers, each tried once, of which the newest is the last processed one: a failed or
  -- unavailable block is passed over, and is not tried again.
  pub run-IsInOrder :
      (fuel turns : ℕ) (s : State) → IsInOrder s → IsInOrder (run setup w fuel turns s)
  unfolding run
  run-IsInOrder fuel zero s o = o
  run-IsInOrder fuel (suc turns) s o =
      let ready = (if s.connected then s else connect_provider w fuel s) in
      elim (Bool-cases (w.shutdown s.tick)) [
        | inl e ↦ rw e o
        | inr e ↦ elim (Bool-cases ready.connected) [
          | inl f ↦
              rw (e, f)
                (run-IsInOrder fuel turns (turn setup w ready) (turn-IsInOrder ready ready_order))
          | inr f ↦ rw (e, f) ready_order
        ]
      ]
    where
      ready_order : IsInOrder (if s.connected then s else connect_provider w fuel s)
      ready_order = either s.connected
        where
          either : (b : Bool) → IsInOrder (if b then s else connect_provider w fuel s)
          either true = o
          either false = connect_provider-IsInOrder w fuel s o
