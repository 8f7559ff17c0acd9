-- ===== src/Base/Dict.antt =====
-- Go's map[string]V as an association list in which a key stands once.
use Prim.Native.Nat.{◌+◌, ◌≤◌}
use Prim.Native.String.{String}
use mathlib.Core.Path.{◌≡◌, refl, subst}
use mathlib.Core.Logic.{inl, inr}
use mathlib.Core.Option.{Option, none, some}
use mathlib.Core.List.{List, [], ◌∷◌}
use native.Mathlib.Omega.{arith}
use text.Mathlib.Text.{◌==◌ as str_eq}
use text.Mathlib.TextEquality.{eq_iff}
use text.Mathlib.TextPositions.{eq_refl}
use ipvn.Base.Lists.{length, All}
use ipvn.Base.Tests.{if◌then◌else◌, Bool-cases}

module _ {ℓ} {V : Type ℓ} where
  unfoldable pub lookup : String → List (String × V) → Option V
  lookup k [] = none
  lookup k ((j, v) ∷ m) = if str_eq j k then some v else lookup k m

  -- `m[k] = v`: the entry of `k` is overwritten, a new key goes to the end.
  unfoldable pub insert : String → V → List (String × V) → List (String × V)
  insert key value [] = (key, value) ∷ []
  insert key value ((other, old) ∷ rest) =
      if str_eq other key then (key, value) ∷ rest else (other, old) ∷ insert key value rest

  -- `delete(m, k)`.
  unfoldable pub delete : String → List (String × V) → List (String × V)
  delete k [] = []
  delete k ((j, w) ∷ m) = if str_eq j k then delete k m else (j, w) ∷ delete k m

  pub lookup-insert :
      (key asked : String) (value : V) (dict : List (String × V))
      → lookup asked (insert key value dict)
        ≡ (if str_eq key asked then some value else lookup asked dict)
  unfolding lookup insert
  lookup-insert key asked value [] = refl
  lookup-insert key asked value ((other, old) ∷ rest) = ground (
    arith,
    eq_iff key asked,
    eq_iff other key,
    eq_iff other asked,
    lookup-insert key asked value rest,
  )

  pub lookup-insert_self :
      (k : String) (v : V) (m : List (String × V)) → lookup k (insert k v m) ≡ some v
  lookup-insert_self k v m = simp (lookup-insert, eq_refl)

  pub lookup-delete :
      (k j : String) (m : List (String × V))
      → lookup j (delete k m) ≡ (if str_eq k j then none else lookup j m)
  unfolding lookup delete
  lookup-delete k j [] = ground (arith, eq_iff k j)
  lookup-delete k j ((i, w) ∷ m) =
      ground (arith, eq_iff k j, eq_iff i k, eq_iff i j, lookup-delete k j m)

  pub length-insert :
      (k : String) (v : V) (m : List (String × V)) → length (insert k v m) ≤ length m + 1
  unfolding insert
  length-insert k v [] = omega arith
  length-insert k v ((i, w) ∷ m) = ground (arith, length-insert k v m)

  pub length-insert_new :
      (k : String) (v : V) (m : List (String × V))
      → lookup k m ≡ none
      → length (insert k v m) ≡ length m + 1
  unfolding lookup insert
  length-insert_new k v [] h = omega arith
  length-insert_new k v ((i, w) ∷ m) h = ground (arith, length-insert_new k v m)

  pub length-insert_old :
      (k : String) (v w : V) (m : List (String × V))
      → lookup k m ≡ some w
      → length (insert k v m) ≡ length m
  unfolding lookup insert
  length-insert_old k v w [] h = cc
  length-insert_old k v w ((i, u) ∷ m) h = ground (arith, length-insert_old k v w m)

  pub All-insert :
      (Q : String × V → Type 0) (k : String) (v : V) (m : List (String × V))
      → Q (k, v)
      → All Q m
      → All Q (insert k v m)
  unfolding insert
  All-insert Q k v [] q h = (q, tt)
  All-insert Q k v ((j, w) ∷ m) q h = elim (Bool-cases (str_eq j k)) [
    | inl same ↦ rw same (q, h.1)
    | inr other ↦ rw other (h.0, All-insert Q k v m q h.1)
  ]

  pub All-delete :
      (Q : String × V → Type 0) (k : String) (m : List (String × V)) → All Q m → All Q (delete k m)
  unfolding delete
  All-delete Q k [] h = tt
  All-delete Q k ((j, w) ∷ m) h = elim (Bool-cases (str_eq j k)) [
    | inl same ↦ rw same (All-delete Q k m h.1)
    | inr other ↦ rw other (h.0, All-delete Q k m h.1)
  ]

  pub All-lookup :
      (Q : String × V → Type 0) (k : String) (v : V) (m : List (String × V))
      → All Q m
      → lookup k m ≡ some v
      → Q (k, v)
  unfolding lookup
  All-lookup Q k v [] h e = let no_entry : ⊥ = ground arith in elim no_entry [ ]
  All-lookup Q k v ((j, w) ∷ m) h e = elim (Bool-cases (str_eq j k)) [
    | inl same ↦ let here : (j, w) ≡ (k, v) = ground (arith, eq_iff j k) in subst Q here h.0
    | inr other ↦ All-lookup Q k v m h.1 (ground arith)
  ]
