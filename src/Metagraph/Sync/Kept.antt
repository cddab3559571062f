-- ===== src/Metagraph/Sync/Kept.antt =====
-- What a change of a block and of a subnet keeps.
use text.Mathlib.Text.{◌==◌ as str_eq}
use sentinel_tower.Prelude.{
  ℕ, ◌==◌, ◌≡◌, refl, inl, inr, Bool, true, false, not, ◌&&◌, Option, none, some, List,
  if◌then◌else◌, Bool-cases, arith,
}
use sentinel_tower.Prelude.Int.{ℤ, pos, eqb_ℤ}
use sentinel_tower.Prelude.Rows.{find_row}
use sentinel_tower.Json.{truthy}
use sentinel_tower.Metagraph.Rows.{Block, Subnet, is_block, is_subnet, BlockDto, SubnetDto}
use sentinel_tower.Metagraph.Sync.{DumpMetadata, or_text, fill, fill_block, fill_subnet}

-- What was known is what is known.
abbrev pub Stays : Option ℕ → Option ℕ → Type 0
Stays old new = new ≡ fill old new

pub record KeepsBlock (old new : Block) : Type 0 where
  pub timestamp_stays : Stays old.timestamp new.timestamp
  pub start_stays : Stays old.dump_started_at new.dump_started_at
  pub finish_stays : Stays old.dump_finished_at new.dump_finished_at

abbrev pub is_none : Option ℕ → Bool
is_none none = true
is_none (some n) = false

-- A value is not lost: it is not that the new one is missing, and the old one is not.
abbrev pub IsKept : {A : Type 0} → (A → Bool) → A → A → Type 0
IsKept missing old new = (missing new && not (missing old)) ≡ false

-- The time of the registration stays; an emission, a tempo, a price, a name or an owner may change, but
-- not back to what stands for none.
pub record KeepsSubnet (old new : Subnet) : Type 0 where
  pub registration_stays : Stays old.registered_at new.registered_at
  pub emission_kept : IsKept (λ e. eqb_ℤ e (pos 0)) old.alpha_out_emission new.alpha_out_emission
  pub tempo_kept : IsKept (λ t. t == 0) old.tempo new.tempo
  pub price_kept : IsKept (λ p. not (truthy p)) old.moving_price new.moving_price
  pub owner_kept : IsKept is_none old.owner_hotkey_id new.owner_hotkey_id
  pub name_kept : IsKept (λ n. str_eq n "") old.name new.name

fill-Stays : (old new : Option ℕ) → Stays old (fill old new)
fill-Stays none new = refl
fill-Stays (some a) new = refl

Stays-refl : (old : Option ℕ) → Stays old old
Stays-refl none = refl
Stays-refl (some a) = refl

and_not : (b : Bool) → (b && not b) ≡ false
and_not true = refl
and_not false = refl

-- A value that replaces another one only where it is not missing.
replace-IsKept :
    {A : Type 0} (missing : A → Bool) (old x : A)
    → IsKept missing old (if missing x then old else x)
replace-IsKept missing old x = elim (Bool-cases (missing x)) [
  | inl t ↦ rw t (and_not (missing old))
  | inr f ↦ rw (f, f) refl
]

pub fill_block-keeps :
    (dto : BlockDto) (dump : DumpMetadata) (b : Block) → KeepsBlock b (fill_block dto dump b)
unfolding fill_block
fill_block-keeps dto dump b = record {
  timestamp_stays = fill-Stays b.timestamp dto.timestamp;
  start_stays = fill-Stays b.dump_started_at (some dump.started_at);
  finish_stays = fill-Stays b.dump_finished_at (some dump.finished_at);
}

pub fill_subnet-keeps :
    (dto : SubnetDto) (owner registered : Option ℕ) (emission : ℤ) (s : Subnet)
    → KeepsSubnet s (fill_subnet dto owner registered emission s)
unfolding fill_subnet
fill_subnet-keeps dto owner registered emission s = record {
  registration_stays = fill-Stays s.registered_at registered;
  emission_kept = replace-IsKept (λ e. eqb_ℤ e (pos 0)) s.alpha_out_emission emission;
  tempo_kept = replace-IsKept (λ t. t == 0) s.tempo dto.tempo;
  price_kept = price (truthy dto.moving_price) refl;
  owner_kept = known owner;
  name_kept = replace-IsKept (λ n. str_eq n "") s.name (or_text dto.name);
}
  where
    price :
        (b : Bool)
        → truthy dto.moving_price ≡ b
        → IsKept
            (λ p. not (truthy p))
            s.moving_price
            (if b then dto.moving_price else s.moving_price)
    price true e = rw e refl
    price false e = and_not (not (truthy s.moving_price))

    known :
        (o : Option ℕ)
        → IsKept is_none s.owner_hotkey_id (elim o [ none ↦ s.owner_hotkey_id | some i ↦ some i ])
    known none = and_not (is_none s.owner_hotkey_id)
    known (some i) = refl

pub KeepsBlock-refl : (b : Block) → KeepsBlock b b
KeepsBlock-refl b = record {
  timestamp_stays = Stays-refl b.timestamp;
  start_stays = Stays-refl b.dump_started_at;
  finish_stays = Stays-refl b.dump_finished_at;
}

pub KeepsSubnet-refl : (s : Subnet) → KeepsSubnet s s
KeepsSubnet-refl s = record {
  registration_stays = Stays-refl s.registered_at;
  emission_kept = and_not (eqb_ℤ s.alpha_out_emission (pos 0));
  tempo_kept = and_not (s.tempo == 0);
  price_kept = and_not (not (truthy s.moving_price));
  owner_kept = and_not (is_none s.owner_hotkey_id);
  name_kept = and_not (str_eq s.name "");
}

pub eq_of_test : (a b : ℕ) → (a == b) ≡ true → a ≡ b
eq_of_test a b h = ground arith

-- Every row of the one table is in the other, with what it knows.
abbrev pub BlocksKept : List Block → List Block → Type 0
BlocksKept old new =
    (n : ℕ) (b : Block)
    → find_row (is_block n) old ≡ some b
    → (c : Block) × (find_row (is_block n) new ≡ some c) × KeepsBlock b c

abbrev pub SubnetsKept : List Subnet → List Subnet → Type 0
SubnetsKept old new =
    (n : ℕ) (s : Subnet)
    → find_row (is_subnet n) old ≡ some s
    → (t : Subnet) × (find_row (is_subnet n) new ≡ some t) × KeepsSubnet s t
