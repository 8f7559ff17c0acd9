-- ===== src/Core/Versions/Order.antt =====
-- IsHigherVersion of src/pkg/core/version_manager.go as an order.
use ipvn.Base.{ℕ, ◌≡◌, refl, ◌∙◌, sym, ap, String, true, false, some, arith, Option-cases, inl, inr}
use ipvn.Core.Versions.{Texts, parse_sem_ver, is_higher, is_higher_version}

abbrev pub Version : Type 0
Version = ℕ × ℕ × ℕ

pub higher-parsed :
    (x : Texts) (current candidate : String)
    → is_higher_version x current candidate ≡ true
    → (c : Version) × ((t : Version) × ((parse_sem_ver x current ≡ some c)
          × ((parse_sem_ver x candidate ≡ some t) × (is_higher c t ≡ true))))
unfolding is_higher_version
higher-parsed x current candidate h = elim (Option-cases (parse_sem_ver x current)) [
  | inl e ↦ absurd (ground arith)
  | inr (c, e) ↦ elim (Option-cases (parse_sem_ver x candidate)) [
    | inl d ↦ absurd (ground arith)
    | inr (t, d) ↦ (c, (t, (e, (d, ground arith))))
  ]
]

pub parsed-higher :
    (x : Texts) (current candidate : String) (c t : Version)
    → parse_sem_ver x current ≡ some c
    → parse_sem_ver x candidate ≡ some t
    → is_higher_version x current candidate ≡ is_higher c t
unfolding is_higher_version
parsed-higher x current candidate c t e d = rw (is_higher_version, e, d) refl

is_higher_trans :
    (a b c : Version) → is_higher a b ≡ true → is_higher b c ≡ true → is_higher a c ≡ true
is_higher_trans (a1, a2, a3) (b1, b2, b3) (c1, c2, c3) h k = ground arith

is_higher_asym : (a b : Version) → is_higher a b ≡ true → is_higher b a ≡ false
is_higher_asym (a1, a2, a3) (b1, b2, b3) h = ground arith

-- A version that is higher than one that is higher than the current is higher than the current, and
-- the current is not higher than it: no chain of updates, each to a higher version, comes back to
-- a version that was installed before.
pub is_higher_version_chain :
    (x : Texts) (a b c : String)
    → is_higher_version x a b ≡ true
    → is_higher_version x b c ≡ true
    → (is_higher_version x a c ≡ true) × (is_higher_version x c a ≡ false)
is_higher_version_chain x a b c h k =
    let (va, (vb, (pa, (pb, first)))) = higher-parsed x a b h in
    let (vb', (vc, (pb', (pc, second)))) = higher-parsed x b c k in
    let same : vb' ≡ vb = ground (arith, pb, pb') in
    let both : is_higher va vc ≡ true =
      is_higher_trans va vb vc first (ap (λ v. is_higher v vc) (sym same) ∙ second) in
    (
      parsed-higher x a c va vc pa pc ∙ both,
      parsed-higher x c a vc va pc pa ∙ is_higher_asym va vc both,
    )
