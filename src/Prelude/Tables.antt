-- ===== src/Prelude/Tables.antt =====
-- A database table with a primary key: the rows in the order of insertion, each beside its key.
use Prim.Native.Nat.{ℕ, ◌+◌, ◌≤◌}
use mathlib.Core.Path.{◌≡◌, refl}
use mathlib.Core.Option.{Option, none, some}
use mathlib.Core.List.{List, [], ◌∷◌, ◌++◌}
use native.Mathlib.Omega.{arith}
use tchebets_open.Prelude.Tests.{◌==◌, if◌then◌else◌}

abbrev pub Table {ℓ} : Type ℓ → Type ℓ
Table V = List (ℕ × V)

module _ {ℓ} {V : Type ℓ} where
  -- `SELECT … WHERE id = k`
  abbrev pub lookup : ℕ → Table V → Option V
  lookup k [] = none
  lookup k ((j, v) ∷ t) = if k == j then some v else lookup k t

  -- `UPDATE … WHERE id = k`; a missing key is no error and changes nothing.
  abbrev pub modify : ℕ → (V → V) → Table V → Table V
  modify k f [] = []
  modify k f ((j, v) ∷ t) = if k == j then (j, f v) ∷ t else (j, v) ∷ modify k f t

  -- The new row stands last. The caller has tested the key.
  abbrev pub add_row : ℕ → V → Table V → Table V
  add_row k v t = t ++ (k, v) ∷ []

  -- `UPDATE …` without a condition on the key.
  abbrev pub modify_all : (V → V) → Table V → Table V
  modify_all f [] = []
  modify_all f ((j, v) ∷ t) = (j, f v) ∷ modify_all f t

  abbrev pub total : (V → ℕ) → Table V → ℕ
  total w [] = 0
  total w ((j, v) ∷ t) = w v + total w t

  pub lookup-modify :
      (k j : ℕ) (f : V → V) (t : Table V)
      → lookup j (modify k f t)
        ≡ (if j == k then elim (lookup j t) [ none ↦ none | some v ↦ some (f v) ] else lookup j t)
  lookup-modify k j f [] = ground arith
  lookup-modify k j f ((i, v) ∷ t) = ground (arith, lookup-modify k j f t)

  pub lookup-add_row :
      (k j : ℕ) (v : V) (t : Table V)
      → lookup k t ≡ none
      → lookup j (add_row k v t) ≡ (if j == k then some v else lookup j t)
  lookup-add_row k j v [] h = ground arith
  lookup-add_row k j v ((i, w) ∷ t) h = ground (arith, lookup-add_row k j v t)

  pub lookup-modify_all :
      (j : ℕ) (f : V → V) (t : Table V)
      → lookup j (modify_all f t) ≡ elim (lookup j t) [ none ↦ none | some v ↦ some (f v) ]
  lookup-modify_all j f [] = refl
  lookup-modify_all j f ((i, v) ∷ t) = ground (arith, lookup-modify_all j f t)

  pub total-modify :
      (w : V → ℕ) (k : ℕ) (f : V → V) (v : V) (t : Table V)
      → lookup k t ≡ some v
      → total w (modify k f t) + w v ≡ total w t + w (f v)
  total-modify w k f v [] e = ground arith
  total-modify w k f v ((i, u) ∷ t) e = ground (arith, total-modify w k f v t)

  pub modify-none : (k : ℕ) (f : V → V) (t : Table V) → lookup k t ≡ none → modify k f t ≡ t
  modify-none k f [] e = refl
  modify-none k f ((i, u) ∷ t) e = ground (arith, modify-none k f t)

  pub total-add_row :
      (w : V → ℕ) (k : ℕ) (v : V) (t : Table V) → total w (add_row k v t) ≡ total w t + w v
  total-add_row w k v [] = omega arith
  total-add_row w k v ((i, u) ∷ t) = omega (arith, total-add_row w k v t)

  pub lookup-le-total :
      (w : V → ℕ) (k : ℕ) (v : V) (t : Table V) → lookup k t ≡ some v → w v ≤ total w t
  lookup-le-total w k v [] e = ground arith
  lookup-le-total w k v ((i, u) ∷ t) e = ground (arith, lookup-le-total w k v t)

  pub total-keep :
      (w : V → ℕ) (k : ℕ) (f : V → V) (t : Table V)
      → ((v : V) → w (f v) ≡ w v)
      → total w (modify k f t) ≡ total w t
  total-keep w k f [] h = refl
  total-keep w k f ((i, v) ∷ t) h = ground (arith, h v, total-keep w k f t h)
