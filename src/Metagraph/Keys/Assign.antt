-- ===== src/Metagraph/Keys/Assign.antt =====
-- The abstract map from addresses to the numbers of their rows, and the lookups of coldkeys and of EVM
-- keys against it.
use Prim.Native.String.{String}
use text.Mathlib.Text.{◌==◌ as str_eq}
use text.Mathlib.TextEquality.{eq_iff}
use sentinel_tower.Prelude.{
  ℕ, ◌≡◌, refl, sym, ap, ◌∙◌, inl, inr, Bool, Option, none, some, ◌∷◌, if◌then◌else◌, Bool-cases,
  Option-cases,
}
use sentinel_tower.Prelude.Rows.{find_row}
use sentinel_tower.Metagraph.Tables.{
  Table, insert, get_or_create, column_of, column_of-found, column_of-none,
}
use sentinel_tower.Metagraph.Keys.{
  Coldkey, EvmKey, Cache, Keys, cached, is_coldkey, is_hotkey, is_evmkey, get_or_create_coldkey,
  get_or_create_evmkey,
}

-- The abstract table: the number of the row of an address.
abbrev pub Ids : Type 0
Ids = String → Option ℕ

abbrev pub given : Option ℕ → ℕ → ℕ
given none n = n
given (some i) n = i

-- An address keeps the number that it has, or takes the next one; other addresses keep theirs.
abbrev pub assign : Ids → String → ℕ → Ids
assign m a n b = if str_eq b a then some (given (m a) n) else m b

-- The answer `i`, and the map afterwards.
abbrev pub IsAssigned : Ids → String → ℕ → ℕ → Ids → Type 0
IsAssigned m a n i m' = (i ≡ given (m a) n) × ((b : String) → m' b ≡ assign m a n b)

unfoldable pub coldkey_ids : Keys → Ids
coldkey_ids s a = column_of (λ k. k.id) (is_coldkey a) s.coldkeys.rows

unfoldable pub hotkey_ids : Keys → Ids
hotkey_ids s a = column_of (λ k. k.id) (is_hotkey a) s.hotkeys.rows

unfoldable pub evmkey_ids : Keys → Ids
evmkey_ids s a = column_of (λ k. k.id) (is_evmkey a) s.evmkeys.rows

-- What a cache holds is a row of the table.
abbrev pub Agrees : {A : Type 0} → (A → ℕ) → Ids → Cache A → Type 0
Agrees {A} id m cache = (a : String) (x : A) → cached a cache ≡ some x → m a ≡ some (id x)

unfoldable pub IsCoherent : Keys → Type 0
IsCoherent s =
    Agrees (λ k. k.id) (coldkey_ids s) s.coldkey_cache
    × Agrees (λ k. k.id) (hotkey_ids s) s.hotkey_cache
    × Agrees (λ k. k.id) (evmkey_ids s) s.evmkey_cache

pub assign_self : (m : Ids) (a : String) (n i : ℕ) → m a ≡ some i → IsAssigned m a n i m
assign_self m a n i e = (
  rw e refl,
  λ b. elim (Bool-cases (str_eq b a)) [
    | inl t ↦ rw (t, e) (ap m ((eq_iff b a).0 t) ∙ e)
    | inr f ↦ rw f refl
  ],
)

pub Agrees-remember :
    {A : Type 0} (id : A → ℕ) (m m' : Ids) (a : String) (n : ℕ) (x : A) (cache : Cache A)
    → IsAssigned m a n (id x) m'
    → Agrees id m cache
    → Agrees id m' ((a, x) ∷ cache)
unfolding cached
Agrees-remember {A} id m m' a n x cache assigned agrees b y e = elim (Bool-cases (str_eq b a)) [
  | inl t ↦ assigned.1 b ∙ rw t (ap (λ i. some i) (sym assigned.0 ∙ ap id (same (rw t at e))))
  | inr f ↦ assigned.1 b ∙ rw f (agrees b y (rw f at e))
]
  where
    same : ◌≡◌ {A = Option A} (some x) (some y) → x ≡ y
    same p = cc

module _ {R : Type 0} (matches : String → R → Bool) (id : R → ℕ) (a : String) (new : ℕ → R)
    (numbered : (n : ℕ) → id (new n) ≡ n)
    (named : (b : String) (n : ℕ) → matches b (new n) ≡ str_eq b a) where
  pub get_or_create-assigns :
      (t : Table R)
      → IsAssigned
          (λ b. column_of id (matches b) t.rows)
          a
          t.next_id
          (id (get_or_create (matches a) new t).0)
          (λ b. column_of id (matches b) (get_or_create (matches a) new t).2.rows)
  unfolding get_or_create insert column_of
  get_or_create-assigns t = elim (Option-cases (find_row (matches a) t.rows)) [
    | inl e ↦
        rw (e, get_or_create, column_of-none id (matches a) t.rows e)
          (numbered t.next_id, λ b. rw (named b t.next_id, numbered t.next_id) refl)
    | inr (r, e) ↦
        rw (e, get_or_create)
          (assign_self (λ b. column_of id (matches b) t.rows) a t.next_id (id r)
            (column_of-found id (matches a) t.rows e))
  ]

pub get_or_create_coldkey-IsAssigned :
    (a : String) (s : Keys)
    → IsCoherent s
    → IsAssigned
        (coldkey_ids s)
        a
        s.coldkeys.next_id
        (get_or_create_coldkey a s).0.id
        (coldkey_ids (get_or_create_coldkey a s).1)
      × IsCoherent (get_or_create_coldkey a s).1
unfolding get_or_create_coldkey IsCoherent coldkey_ids hotkey_ids evmkey_ids
get_or_create_coldkey-IsAssigned a s h = elim (Option-cases (cached a s.coldkey_cache)) [
  | inl e ↦
      rw (e, get_or_create_coldkey)
        (
          assigned,
          (
            Agrees-remember (λ k. k.id) (coldkey_ids s)
                (λ b. column_of (λ k. k.id) (is_coldkey b) found.2.rows) a s.coldkeys.next_id
                found.0 s.coldkey_cache assigned h.0,
            h.1,
            h.2,
          ),
        )
  | inr (k, e) ↦
      rw (e, get_or_create_coldkey)
        (assign_self (coldkey_ids s) a s.coldkeys.next_id k.id (h.0 a k e), h)
]
  where
    found : Coldkey × Bool × Table Coldkey
    found = get_or_create (is_coldkey a) (λ i. record { id = i; coldkey = a }) s.coldkeys

    assigned :
        IsAssigned
          (λ b. column_of (λ k. k.id) (is_coldkey b) s.coldkeys.rows)
          a
          s.coldkeys.next_id
          found.0.id
          (λ b. column_of (λ k. k.id) (is_coldkey b) found.2.rows)
    assigned =
        get_or_create-assigns is_coldkey (λ k. k.id) a (λ i. record { id = i; coldkey = a })
          (λ n. refl) (λ b n. refl) s.coldkeys

pub get_or_create_evmkey-IsAssigned :
    (a : String) (s : Keys)
    → IsCoherent s
    → IsAssigned
        (evmkey_ids s)
        a
        s.evmkeys.next_id
        (get_or_create_evmkey a s).0.id
        (evmkey_ids (get_or_create_evmkey a s).1)
      × IsCoherent (get_or_create_evmkey a s).1
unfolding get_or_create_evmkey IsCoherent coldkey_ids hotkey_ids evmkey_ids
get_or_create_evmkey-IsAssigned a s h = elim (Option-cases (cached a s.evmkey_cache)) [
  | inl e ↦
      rw (e, get_or_create_evmkey)
        (
          assigned,
          (
            h.0,
            h.1,
            Agrees-remember (λ k. k.id) (evmkey_ids s)
                (λ b. column_of (λ k. k.id) (is_evmkey b) found.2.rows) a s.evmkeys.next_id found.0
                s.evmkey_cache assigned h.2,
          ),
        )
  | inr (k, e) ↦
      rw (e, get_or_create_evmkey)
        (assign_self (evmkey_ids s) a s.evmkeys.next_id k.id (h.2 a k e), h)
]
  where
    found : EvmKey × Bool × Table EvmKey
    found = get_or_create (is_evmkey a) (λ i. record { id = i; evm_address = a }) s.evmkeys

    assigned :
        IsAssigned
          (λ b. column_of (λ k. k.id) (is_evmkey b) s.evmkeys.rows)
          a
          s.evmkeys.next_id
          found.0.id
          (λ b. column_of (λ k. k.id) (is_evmkey b) found.2.rows)
    assigned =
        get_or_create-assigns is_evmkey (λ k. k.id) a (λ i. record { id = i; evm_address = a })
          (λ n. refl) (λ b n. refl) s.evmkeys
