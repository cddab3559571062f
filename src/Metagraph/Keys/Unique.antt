-- ===== src/Metagraph/Keys/Unique.antt =====
-- The lookups of keys keep the addresses of the three tables unique.
use Prim.Native.String.{String}
use text.Mathlib.TextEquality.{eq_iff}
use sentinel_tower.Prelude.{
  ℕ, ◌==◌, ◌≡◌, refl, inl, inr, Bool, true, Option, none, some, List, [], ◌∷◌, Bool-cases,
  Option-cases,
}
use sentinel_tower.Prelude.Rows.{find_row, IsKeyed, insert-IsKeyed, update_where-IsKeyed}
use sentinel_tower.Json.{Result, ok, raised, AfterOk, AfterOk-ok, AfterOk-raised}
use sentinel_tower.Metagraph.Tables.{Table, insert, get_or_create, update_or_create}
use sentinel_tower.Metagraph.Keys.{
  Coldkey, Hotkey, Keys, cached, is_coldkey, is_hotkey, is_evmkey, is_among, get_or_create_coldkey,
  get_or_create_evmkey, save_coldkey, coldkey_of, existing_hotkey, fetch_hotkey, remember_hotkey,
  get_or_create_hotkey, flush_hotkey_last_seen,
}

abbrev pub IsUnique : Keys → Type 0
IsUnique s =
    IsKeyed is_coldkey s.coldkeys.rows
    × IsKeyed is_hotkey s.hotkeys.rows
    × IsKeyed is_evmkey s.evmkeys.rows

module _ {K R : Type 0} (matches : K → R → Bool) (key : K) (new : ℕ → R)
    (own : (k : K) (n : ℕ) → matches k (new n) ≡ true → k ≡ key) where
  pub get_or_create-IsKeyed :
      (t : Table R)
      → IsKeyed matches t.rows
      → IsKeyed matches (get_or_create (matches key) new t).2.rows
  unfolding get_or_create insert
  get_or_create-IsKeyed t h = elim (Option-cases (find_row (matches key) t.rows)) [
    | inl e ↦
        rw (e, get_or_create)
          (insert-IsKeyed matches key (new t.next_id) t.rows (λ k. own k t.next_id) e h)
    | inr (r, e) ↦ rw (e, get_or_create) h
  ]

  pub update_or_create-IsKeyed :
      (f : R → R) (t : Table R)
      → ((k : K) (r : R) → matches k (f r) ≡ matches k r)
      → IsKeyed matches t.rows
      → IsKeyed matches (update_or_create (matches key) f new t).1.rows
  unfolding update_or_create insert
  update_or_create-IsKeyed f t same h = elim (Option-cases (find_row (matches key) t.rows)) [
    | inl e ↦
        rw (e, update_or_create)
          (insert-IsKeyed matches key (new t.next_id) t.rows (λ k. own k t.next_id) e h)
    | inr (r, e) ↦
        rw (e, update_or_create) (update_where-IsKeyed matches (matches key) f t.rows same h)
  ]

pub get_or_create_coldkey-IsUnique :
    (a : String) (s : Keys) → IsUnique s → IsUnique (get_or_create_coldkey a s).1
unfolding get_or_create_coldkey
get_or_create_coldkey-IsUnique a s h = elim (Option-cases (cached a s.coldkey_cache)) [
  | inl e ↦
      rw (e, get_or_create_coldkey)
        (
          get_or_create-IsKeyed is_coldkey a (λ i. record { id = i; coldkey = a })
              (λ b n t. (eq_iff b a).0 t) s.coldkeys h.0,
          h.1,
          h.2,
        )
  | inr (k, e) ↦ rw (e, get_or_create_coldkey) h
]

pub get_or_create_evmkey-IsUnique :
    (a : String) (s : Keys) → IsUnique s → IsUnique (get_or_create_evmkey a s).1
unfolding get_or_create_evmkey
get_or_create_evmkey-IsUnique a s h = elim (Option-cases (cached a s.evmkey_cache)) [
  | inl e ↦
      rw (e, get_or_create_evmkey)
        (
          h.0,
          h.1,
          get_or_create-IsKeyed is_evmkey a (λ i. record { id = i; evm_address = a })
              (λ b n t. (eq_iff b a).0 t) s.evmkeys h.2,
        )
  | inr (k, e) ↦ rw (e, get_or_create_evmkey) h
]

existing_hotkey-IsUnique :
    (k : Hotkey) (c : Option Coldkey) (s : Keys) → IsUnique s → IsUnique (existing_hotkey k c s).1
unfolding existing_hotkey save_coldkey
existing_hotkey-IsUnique k none s h = h
existing_hotkey-IsUnique k (some c) s h = elim (Bool-cases (k.coldkey_id == c.id)) [
  | inl t ↦ rw t h
  | inr f ↦ rw f (
    h.0,
    update_where-IsKeyed is_hotkey (λ r. r.id == k.id) (λ r. record r { coldkey_id = c.id })
        s.hotkeys.rows (λ b r. refl) h.1,
    h.2,
  )
]

fetch_hotkey-IsUnique :
    (now : ℕ) (a : String) (p : Option Coldkey × Keys)
    → IsUnique p.1
    → AfterOk (λ q. IsUnique q.1) (fetch_hotkey now a p)
unfolding fetch_hotkey get_or_create
fetch_hotkey-IsUnique now a (none, s) h =
    elim (Option-cases (find_row (is_hotkey a) s.hotkeys.rows)) [
      | inl n ↦ rw (n, fetch_hotkey) AfterOk-raised
      | inr (k, f) ↦ rw (f, fetch_hotkey) (AfterOk-ok (existing_hotkey-IsUnique k none s h))
    ]
fetch_hotkey-IsUnique now a (some c, s) h =
    elim (Option-cases (find_row (is_hotkey a) s.hotkeys.rows)) [
      | inl n ↦ rw (n, fetch_hotkey, get_or_create) (AfterOk-ok (h.0, created n, h.2))
      | inr (k, f) ↦
          rw (f, fetch_hotkey, get_or_create) (AfterOk-ok (existing_hotkey-IsUnique k (some c) s h))
    ]
  where
    new : ℕ → Hotkey
    new i = record { id = i; hotkey = a; coldkey_id = c.id; last_seen = some now }

    created :
        find_row (is_hotkey a) s.hotkeys.rows ≡ none
        → IsKeyed is_hotkey (new s.hotkeys.next_id ∷ s.hotkeys.rows)
    created n =
        insert-IsKeyed is_hotkey a (new s.hotkeys.next_id) s.hotkeys.rows (λ b t. (eq_iff b a).0 t)
          n h.1

remember_hotkey-IsUnique :
    (a : String) (r : Result (Hotkey × Keys))
    → AfterOk (λ q. IsUnique q.1) r
    → AfterOk (λ q. IsUnique q.1) (remember_hotkey a r)
unfolding remember_hotkey
remember_hotkey-IsUnique a raised h = AfterOk-raised
remember_hotkey-IsUnique a (ok (k, s)) h = AfterOk-ok (h.after (k, s) refl)

coldkey_of-IsUnique : (d : Option String) (s : Keys) → IsUnique s → IsUnique (coldkey_of d s).1
unfolding coldkey_of
coldkey_of-IsUnique none s h = h
coldkey_of-IsUnique (some c) s h = get_or_create_coldkey-IsUnique c s h

pub get_or_create_hotkey-IsUnique :
    (now : ℕ) (a : String) (d : Option String) (s : Keys)
    → IsUnique s
    → AfterOk (λ q. IsUnique q.1) (get_or_create_hotkey now a d s)
unfolding get_or_create_hotkey
get_or_create_hotkey-IsUnique now a d s h = elim (Option-cases (cached a s.hotkey_cache)) [
  | inl n ↦
      rw (n, get_or_create_hotkey)
        (remember_hotkey-IsUnique a (fetch_hotkey now a (coldkey_of d s))
          (fetch_hotkey-IsUnique now a (coldkey_of d s) (coldkey_of-IsUnique d s h)))
  | inr (k, f) ↦ rw (f, get_or_create_hotkey) (AfterOk-ok h)
]

pub flush_hotkey_last_seen-IsUnique :
    (now : ℕ) (s : Keys) → IsUnique s → IsUnique (flush_hotkey_last_seen now s).1
unfolding flush_hotkey_last_seen
flush_hotkey_last_seen-IsUnique now s h = go s.hotkeys_to_update refl
  where
    go : (ids : List ℕ) → s.hotkeys_to_update ≡ ids → IsUnique (flush_hotkey_last_seen now s).1
    go [] e = rw (e, flush_hotkey_last_seen) h
    go (i ∷ is) e =
        rw (e, flush_hotkey_last_seen)
          (
            h.0,
            update_where-IsKeyed is_hotkey (λ r. is_among r.id (i ∷ is))
                (λ r. record r { last_seen = some now }) s.hotkeys.rows (λ b r. refl) h.1,
            h.2,
          )
