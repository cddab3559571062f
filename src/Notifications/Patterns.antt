-- ===== src/Notifications/Patterns.antt =====
-- `ExtrinsicNotification.matches` and `BlockEventNotification.matches` of
-- app/src/apps/notifications/base.py, which are the same code over two pairs of names.
use Prim.Native.Char.{code}
use Prim.Native.String.{String}
use text.Mathlib.TextEquality.{eq_iff}
use sentinel_tower.Prelude.{
  ◌≡◌, refl, subst, Bool, true, false, ◌&&◌, Option, none, some, List, [], ◌∷◌, ◌==◌, if◌then◌else◌,
  In, ◌↔◌, ◌⊎◌, inl, inr, Bool-cases, Option-cases, arith,
}
use sentinel_tower.Json.{Json, str, is_text}

-- `":" in pattern` and `pattern.split(":", 1)`: the parts around the first colon.
unfoldable pub split_colon : String → Option (String × String)
split_colon String.[] = none
split_colon (String.◌∷◌ c s) =
    if code c == b':'
    then some (String.[], s)
    else elim (split_colon s) [ none ↦ none | some (m, f) ↦ some (String.◌∷◌ c m, f) ]

-- One pattern: "Module:name" or "Module".
unfoldable pub selects : String → Json → Json → Bool
unfolding split_colon is_text
selects pattern module_ name = elim (split_colon pattern) [
  | some (p_module, p_name) ↦ is_text module_ p_module && is_text name p_name
  | none ↦ is_text module_ pattern
]

unfoldable pub matches : List String → Json → Json → Bool
unfolding selects
matches [] module_ name = false
matches (pattern ∷ patterns) module_ name =
    if selects pattern module_ name then true else matches patterns module_ name

-- When a pattern names a call: it is the module, with no colon, or splits into the module and the name.
abbrev pub Names : String → String → String → Type 0
Names pattern m f =
    ((split_colon pattern ≡ none) × (m ≡ pattern)) ⊎ (split_colon pattern ≡ some (m, f))

selects-Names : (p m f : String) → (selects p (str m) (str f) ≡ true) ↔ Names p m f
unfolding selects
selects-Names p m f = elim (Option-cases (split_colon p)) [
  | inl e ↦
      rw (e, selects)
        (
          (λ h. inl (refl, (eq_iff m p).0 h)),
          (λ h. elim h [ inl q ↦ (eq_iff m p).1 q.1 | inr q ↦ cc ]),
        )
  | inr (parts, e) ↦
      rw (e, selects)
        (
          (λ h. inr (ground (arith, eq_iff m parts.0, eq_iff f parts.1))),
          (λ h. elim h [ inl q ↦ cc | inr q ↦ ground (arith, eq_iff m parts.0, eq_iff f parts.1) ]),
        )
]

-- A handler matches a call exactly when one of its patterns names the call.
matches-iff-Names :
    (patterns : List String) (m f : String)
    → (matches patterns (str m) (str f) ≡ true) ↔ ((p : String) × In p patterns × Names p m f)
unfolding matches
matches-iff-Names [] m f = ((λ h. cc), (λ (p, i, n). absurd i))
matches-iff-Names (q ∷ qs) m f = elim (Bool-cases (selects q (str m) (str f))) [
  | inl e ↦ rw e ((λ h. (q, inl refl, (selects-Names q m f).0 e)), (λ h. refl))
  | inr e ↦
      let ih = matches-iff-Names qs m f in
      rw e (
        (λ h. let (p, i, n) = ih.0 h in (p, inr i, n)),
        (λ (p, i, n). elim i [
          | inl same ↦
              let t = (selects-Names q m f).1 (subst (λ r. Names r m f) same n) in cc (e, t)
          | inr later ↦ ih.1 (p, later, n)
        ]),
      )
]
