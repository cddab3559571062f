-- ===== src/Metagraph/Keys/Refines.antt =====
-- The cached lookups of keys against an abstract map from addresses to the numbers of their rows.
use Prim.Native.String.{String}
use text.Mathlib.Text.{◌==◌ as str_eq}
use text.Mathlib.TextEquality.{eq_iff}
use text.Mathlib.TextPositions.{eq_refl as str_eq-refl}
use sentinel_tower.Prelude.{
  ℕ, ◌==◌, ◌≡◌, refl, sym, ap, ◌∙◌, subst, inl, inr, Bool, Option, none, some, List, [], ◌∷◌,
  Bool-cases, Option-cases,
}
use sentinel_tower.Prelude.Rows.{find_row, update_where}
use sentinel_tower.Json.{Result, ok, raised, ok_injective, raised_absurd}
use sentinel_tower.Metagraph.Tables.{
  insert, get_or_create, column_of, column_of-found, column_of-update_where,
}
use sentinel_tower.Metagraph.Keys.{
  Coldkey, Hotkey, Cache, Keys, cached, is_hotkey, is_among, get_or_create_coldkey, save_coldkey,
  coldkey_of, existing_hotkey, fetch_hotkey, remember_hotkey, get_or_create_hotkey,
  flush_hotkey_last_seen,
}
use sentinel_tower.Metagraph.Keys.Assign.{
  Ids, IsAssigned, coldkey_ids, hotkey_ids, evmkey_ids, Agrees, Agrees, IsCoherent, assign_self,
  Agrees-remember, Agrees-remember, get_or_create-assigns, get_or_create_coldkey-IsAssigned,
}

coldkey_of-keeps :
    (d : Option String) (s : Keys)
    → IsCoherent s
    → ((coldkey_of d s).1.hotkeys ≡ s.hotkeys) × IsCoherent (coldkey_of d s).1
unfolding coldkey_of get_or_create_coldkey
coldkey_of-keeps none s h = (refl, h)
coldkey_of-keeps (some c) s h = (
  elim (Option-cases (cached c s.coldkey_cache)) [
    | inl e ↦ rw (e, get_or_create_coldkey) refl
    | inr (k, e) ↦ rw (e, get_or_create_coldkey) refl
  ],
  (get_or_create_coldkey-IsAssigned c s h).1,
)

-- The row that was there keeps its number, and so do all addresses.
existing_hotkey-keeps :
    (k : Hotkey) (c : Option Coldkey) (s : Keys)
    → IsCoherent s
    → ((existing_hotkey k c s).0.id ≡ k.id)
      × ((b : String) → hotkey_ids (existing_hotkey k c s).1 b ≡ hotkey_ids s b)
      × IsCoherent (existing_hotkey k c s).1
unfolding existing_hotkey hotkey_ids coldkey_ids evmkey_ids IsCoherent save_coldkey
existing_hotkey-keeps k none s h = (refl, λ b. refl, h)
existing_hotkey-keeps k (some c) s h = elim (Bool-cases (k.coldkey_id == c.id)) [
  | inl t ↦ rw t (refl, λ b. refl, h)
  | inr f ↦ rw f (refl, same, (h.0, λ a x e. same a ∙ h.1 a x e, h.2))
]
  where
    same :
        (b : String)
        → column_of
            (λ r. r.id)
            (is_hotkey b)
            (update_where (λ r. r.id == k.id) (λ r. record r { coldkey_id = c.id }) s.hotkeys.rows)
          ≡ column_of (λ r. r.id) (is_hotkey b) s.hotkeys.rows
    same b =
        column_of-update_where (λ r. r.id) (is_hotkey b) (λ r. r.id == k.id)
          (λ r. record r { coldkey_id = c.id }) s.hotkeys.rows (λ x. (refl, refl))

-- The map at the address itself.
assigned_at : (m m' : Ids) (a : String) (n i : ℕ) → IsAssigned m a n i m' → m' a ≡ some i
assigned_at m m' a n i assigned =
    assigned.1 a ∙ rw (str_eq-refl a) (ap (λ j. some j) (sym assigned.0))

Agrees-assign :
    {A : Type 0} (id : A → ℕ) (m m' : Ids) (a : String) (n i : ℕ) (cache : Cache A)
    → IsAssigned m a n i m'
    → Agrees id m cache
    → Agrees id m' cache
Agrees-assign id m m' a n i cache assigned agrees b x e = elim (Bool-cases (str_eq b a)) [
  | inl t ↦ assigned.1 b ∙ rw (t, ap m (sym ((eq_iff b a).0 t)) ∙ agrees b x e) refl
  | inr f ↦ assigned.1 b ∙ rw f (agrees b x e)
]

-- The answer of an operation on hotkeys, and the state after it.
abbrev pub IsHotkeyOf : String → Keys → Hotkey → Keys → Type 0
IsHotkeyOf a s h s' =
    IsAssigned (hotkey_ids s) a s.hotkeys.next_id h.id (hotkey_ids s') × IsCoherent s'

existing-IsHotkeyOf :
    (a : String) (k : Hotkey) (c : Option Coldkey) (s : Keys)
    → IsCoherent s
    → find_row (is_hotkey a) s.hotkeys.rows ≡ some k
    → IsHotkeyOf a s (existing_hotkey k c s).0 (existing_hotkey k c s).1
unfolding hotkey_ids
existing-IsHotkeyOf a k c s h e =
    let kept = existing_hotkey-keeps k c s h in
    let here =
      assign_self (λ b. column_of (λ r. r.id) (is_hotkey b) s.hotkeys.rows) a s.hotkeys.next_id k.id
        (column_of-found (λ r. r.id) (is_hotkey a) s.hotkeys.rows e) in
    ((kept.0 ∙ here.0, λ b. kept.1 b ∙ here.1 b), kept.2)

fetch-IsHotkeyOf :
    (now : ℕ) (a : String) (c : Option Coldkey) (s : Keys)
    → IsCoherent s
    → {h : Hotkey} {s' : Keys} → fetch_hotkey now a (c, s) ≡ ok (h, s')
    → IsHotkeyOf a s h s'
unfolding fetch_hotkey get_or_create hotkey_ids coldkey_ids evmkey_ids IsCoherent
fetch-IsHotkeyOf now a none s coherent {h} {s'} e =
    elim (Option-cases (find_row (is_hotkey a) s.hotkeys.rows)) [
      | inl n ↦ raised_absurd (rw (n, fetch_hotkey) at e)
      | inr (k, f) ↦
          subst (λ p. IsHotkeyOf a s p.0 p.1) (ok_injective (rw (f, fetch_hotkey) at e))
            (existing-IsHotkeyOf a k none s coherent f)
    ]
fetch-IsHotkeyOf now a (some c) s coherent {h} {s'} e =
    elim (Option-cases (find_row (is_hotkey a) s.hotkeys.rows)) [
      | inl n ↦
          subst (λ p. IsHotkeyOf a s p.0 p.1)
            (ok_injective (rw (n, fetch_hotkey, get_or_create) at e))
            (
              rw (n, get_or_create) at created,
              (
                coherent.0,
                Agrees-assign (λ k. k.id) (hotkey_ids s)
                    (λ b. column_of (λ k. k.id) (is_hotkey b) (insert new s.hotkeys).rows) a
                    s.hotkeys.next_id s.hotkeys.next_id s.hotkey_cache
                    (rw (n, get_or_create) at created) coherent.1,
                coherent.2,
              ),
            )
      | inr (k, f) ↦
          subst (λ p. IsHotkeyOf a s p.0 p.1)
            (ok_injective (rw (f, fetch_hotkey, get_or_create) at e))
            (existing-IsHotkeyOf a k (some c) s coherent f)
    ]
  where
    new : ℕ → Hotkey
    new i = record { id = i; hotkey = a; coldkey_id = c.id; last_seen = some now }

    created :
        IsAssigned
          (λ b. column_of (λ k. k.id) (is_hotkey b) s.hotkeys.rows)
          a
          s.hotkeys.next_id
          (get_or_create (is_hotkey a) new s.hotkeys).0.id
          (λ b.
            column_of (λ k. k.id) (is_hotkey b) (get_or_create (is_hotkey a) new s.hotkeys).2.rows)
    created = get_or_create-assigns is_hotkey (λ k. k.id) a new (λ n. refl) (λ b n. refl) s.hotkeys

remember-IsHotkeyOf :
    (a : String) (s : Keys) (r : Result (Hotkey × Keys))
    → ((h : Hotkey) (s' : Keys) → r ≡ ok (h, s') → IsHotkeyOf a s h s')
    → {h : Hotkey} {s' : Keys} → remember_hotkey a r ≡ ok (h, s')
    → IsHotkeyOf a s h s'
unfolding remember_hotkey hotkey_ids coldkey_ids evmkey_ids IsCoherent
remember-IsHotkeyOf a s raised good e = raised_absurd e
remember-IsHotkeyOf a s (ok (k, t)) good e =
    let found = good k t refl in
    subst (λ p. IsHotkeyOf a s p.0 p.1) (ok_injective e)
      (
        found.0,
        (
          found.1.0,
          Agrees-remember (λ x. x.id) (hotkey_ids t) (hotkey_ids t) a s.hotkeys.next_id k
              t.hotkey_cache
              (assign_self (hotkey_ids t) a s.hotkeys.next_id k.id
                (assigned_at (hotkey_ids s) (hotkey_ids t) a s.hotkeys.next_id k.id found.0))
              found.1.1,
          found.1.2,
        ),
      )

-- If the caches agree with the tables, then whatever `get_or_create_hotkey` answers is the hotkey that
-- the address has in the table, or a new one that only this address gets, no other address changes
-- its hotkey, and the caches agree with the tables afterwards.
pub get_or_create_hotkey-IsAssigned :
    (now : ℕ) (a : String) (d : Option String) (s : Keys)
    → IsCoherent s
    → {h : Hotkey} {s' : Keys} → get_or_create_hotkey now a d s ≡ ok (h, s')
    → IsHotkeyOf a s h s'
unfolding get_or_create_hotkey hotkey_ids coldkey_ids evmkey_ids IsCoherent
get_or_create_hotkey-IsAssigned now a d s coherent {h} {s'} e =
    let kept = coldkey_of-keeps d s coherent in
    elim (Option-cases (cached a s.hotkey_cache)) [
      | inl n ↦
          subst
            (λ t.
              IsAssigned (λ b. column_of (λ k. k.id) (is_hotkey b) t.rows) a t.next_id h.id
                (hotkey_ids s')
              × IsCoherent s')
            kept.0
            (remember-IsHotkeyOf a (coldkey_of d s).1 (fetch_hotkey now a (coldkey_of d s))
              (λ k t.
                fetch-IsHotkeyOf now a (coldkey_of d s).0 (coldkey_of d s).1 kept.1 {h = k}
                  {s' = t})
              (rw (n, get_or_create_hotkey) at e))
      | inr (k, f) ↦
          subst (λ p. IsHotkeyOf a s p.0 p.1) (ok_injective (rw (f, get_or_create_hotkey) at e))
            (assign_self (hotkey_ids s) a s.hotkeys.next_id k.id (coherent.1 a k f), coherent)
    ]

-- A hotkey with a coldkey is always answered.
pub get_or_create_hotkey-answers :
    (now : ℕ) (a c : String) (s : Keys) → ¬ (get_or_create_hotkey now a (some c) s ≡ raised)
unfolding get_or_create_hotkey coldkey_of fetch_hotkey remember_hotkey
get_or_create_hotkey-answers now a c s e = elim (Option-cases (cached a s.hotkey_cache)) [
  | inl n ↦ elim (Bool-cases created) [
    | inl t ↦ raised_absurd (sym (rw (n, get_or_create_hotkey, t) at e))
    | inr f ↦ raised_absurd (sym (rw (n, get_or_create_hotkey, f) at e))
  ]
  | inr (k, f) ↦ raised_absurd (sym (rw (f, get_or_create_hotkey) at e))
]
  where
    owner : Coldkey × Keys
    owner = get_or_create_coldkey c s

    created : Bool
    created =
        (get_or_create (is_hotkey a)
          (λ i. record { id = i; hotkey = a; coldkey_id = owner.0.id; last_seen = some now })
          owner.1.hotkeys).1

pub flush_hotkey_last_seen-IsCoherent :
    (now : ℕ) (s : Keys) → IsCoherent s → IsCoherent (flush_hotkey_last_seen now s).1
unfolding flush_hotkey_last_seen hotkey_ids coldkey_ids evmkey_ids IsCoherent
flush_hotkey_last_seen-IsCoherent now s h = go s.hotkeys_to_update refl
  where
    seen : List ℕ → List Hotkey
    seen ids =
        update_where (λ r. is_among r.id ids) (λ r. record r { last_seen = some now })
          s.hotkeys.rows

    same :
        (ids : List ℕ) (b : String)
        → column_of (λ r. r.id) (is_hotkey b) (seen ids)
          ≡ column_of (λ r. r.id) (is_hotkey b) s.hotkeys.rows
    same ids b =
        column_of-update_where (λ r. r.id) (is_hotkey b) (λ r. is_among r.id ids)
          (λ r. record r { last_seen = some now }) s.hotkeys.rows (λ x. (refl, refl))

    go : (ids : List ℕ) → s.hotkeys_to_update ≡ ids → IsCoherent (flush_hotkey_last_seen now s).1
    go [] e = rw (e, flush_hotkey_last_seen) h
    go (i ∷ is) e = rw (e, flush_hotkey_last_seen) (h.0, λ a x f. same (i ∷ is) a ∙ h.1 a x f, h.2)
