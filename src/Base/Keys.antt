-- ===== src/Base/Keys.antt =====
-- Maps without repeated keys, as Go's are, and their sizes.
use Prim.Native.String.{String}
use Prim.Native.Nat.{suc}
use mathlib.Core.Path.{◌≡◌, refl, ap}
use mathlib.Core.List.{[], ◌∷◌}
use mathlib.Core.Option.{none, some}
use native.Mathlib.Omega.{arith}
use text.Mathlib.TextEquality.{eq_iff}
use apigateway_distributed_s.Base.Lists.{length}
use apigateway_distributed_s.Base.Maps.{Dict, lookup, insert, delete, lookup-insert, lookup-delete}

module _ {V : Type 0} where
  abbrev pub Unique : Dict V → Type 0
  Unique [] = Unit
  Unique ((k, v) ∷ m) = (lookup k m ≡ none) × Unique m

  pub Unique-insert : (k : String) (v : V) (m : Dict V) → Unique m → Unique (insert k v m)
  unfolding insert lookup
  Unique-insert k v [] u = (refl, tt)
  Unique-insert k v ((j, w) ∷ m) u =
      ground (arith, eq_iff j k, eq_iff k j, lookup-insert k j v m, Unique-insert k v m u.1)

  pub Unique-delete : (k : String) (m : Dict V) → Unique m → Unique (delete k m)
  unfolding delete
  Unique-delete k [] u = tt
  Unique-delete k ((j, w) ∷ m) u =
      ground (arith, eq_iff k j, eq_iff j k, lookup-delete k j m, Unique-delete k m u.1)

  pub delete_absent : (k : String) (m : Dict V) → lookup k m ≡ none → delete k m ≡ m
  unfolding delete lookup
  delete_absent k [] h = refl
  delete_absent k ((j, w) ∷ m) h = ground (arith, delete_absent k m)

  pub length-insert_new :
      (k : String) (v : V) (m : Dict V) → lookup k m ≡ none → length (insert k v m) ≡ suc (length m)
  unfolding insert lookup
  length-insert_new k v [] h = refl
  length-insert_new k v ((j, w) ∷ m) h = ground (arith, length-insert_new k v m)

  pub length-delete :
      (k : String) (v : V) (m : Dict V)
      → Unique m
      → lookup k m ≡ some v
      → suc (length (delete k m)) ≡ length m
  unfolding delete lookup
  length-delete k v [] u h = absurd (ground arith)
  length-delete k v ((j, w) ∷ m) u h = ground (
    arith,
    eq_iff j k,
    delete_absent k m,
    length-delete k v m u.1,
    ap (λ s. lookup s m) {x = j} {y = k},
  )
