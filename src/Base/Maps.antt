-- ===== src/Base/Maps.antt =====
-- Go maps with string keys, as association lists: the order of the entries is the order in which
-- a `range` over the map meets them, which Go leaves open.
use Prim.Native.String.{String}
use mathlib.Core.Path.{◌≡◌, refl}
use mathlib.Core.List.{List, [], ◌∷◌}
use mathlib.Core.Option.{Option, none, some}
use native.Mathlib.Omega.{arith}
use text.Mathlib.Text.{◌==◌}
use text.Mathlib.TextEquality.{eq_iff}
use apigateway_distributed_s.Base.Tests.{if◌then◌else◌}

abbrev pub Dict {ℓ} : Type ℓ → Type ℓ
Dict V = List (String × V)

module _ {ℓ} {V : Type ℓ} where
  -- `delete(m, key)`
  unfoldable pub delete : String → Dict V → Dict V
  delete key [] = []
  delete key ((at, value) ∷ entries) =
      let rest = delete key entries in if at == key then rest else (at, value) ∷ rest

  -- `value, ok := m[key]`
  unfoldable pub lookup : String → Dict V → Option V
  lookup key [] = none
  lookup key ((at, value) ∷ entries) =
      let later = lookup key entries in if at == key then some value else later

  pub lookup-delete :
      (gone key : String) (m : Dict V)
      → lookup key (delete gone m) ≡ (if gone == key then none else lookup key m)
  unfolding lookup delete
  lookup-delete gone key [] = ground arith
  lookup-delete gone key ((at, value) ∷ entries) =
      ground (arith, lookup-delete gone key entries, eq_iff gone key, eq_iff at gone, eq_iff at key)

  -- `m[key] = value`
  unfoldable pub insert : String → V → Dict V → Dict V
  insert key value [] = (key, value) ∷ []
  insert key value ((at, old) ∷ entries) =
      let rest = insert key value entries in
      if at == key then (key, value) ∷ entries else (at, old) ∷ rest

  pub lookup-insert :
      (new key : String) (value : V) (m : Dict V)
      → lookup key (insert new value m) ≡ (if new == key then some value else lookup key m)
  unfolding lookup insert
  lookup-insert new key value [] = refl
  lookup-insert new key value ((at, old) ∷ entries) =
      ground
        (arith, lookup-insert new key value entries, eq_iff at key, eq_iff at new, eq_iff new key)

-- A function that differs from `f` at one key.
abbrev pub update {ℓ} : {A : Type ℓ} → (String → A) → String → A → String → A
update f k a j = if k == j then a else f j
