-- ===== src/Cache/Lru/Keys.antt =====
-- The items of the LRU list by their addresses and keys: where a key stands, and what it takes to
-- take an item out of the list or to put it in front.
use apigateway_distributed_s.Base.{
  ℕ, ◌≡◌, refl, ap, inl, inr, true, false, Option, none, some, List, [], ◌∷◌, ◌++◌, String, length,
  arith, str_eq, eq_iff, Bool-cases, All, suc, if◌then◌else◌,
}
use apigateway_distributed_s.Cache.Lru.Linked.{has, has-append, Distinct}

-- An item of a list without repetition.
pub Distinct-middle :
    (xs : List ℕ) (p : ℕ) (zs : List ℕ)
    → Distinct (xs ++ p ∷ zs)
    → Distinct (xs ++ zs) × (has p (xs ++ zs) ≡ false)
Distinct-middle [] p zs d = (d.1, d.0)
Distinct-middle (x ∷ xs) p zs d =
    let rest = Distinct-middle xs p zs d.1 in
    ground (arith, rest, has-append x xs (p ∷ zs), has-append x xs zs, has-append p xs zs)

pub All-middle :
    (P : ℕ → Type 0) (xs : List ℕ) (p : ℕ) (zs : List ℕ)
    → All P (xs ++ p ∷ zs)
    → P p × All P (xs ++ zs)
All-middle P [] p zs h = h
All-middle P (x ∷ xs) p zs h = let rest = All-middle P xs p zs h.1 in (rest.0, (h.0, rest.1))

pub length-middle :
    (xs : List ℕ) (p : ℕ) (zs : List ℕ) → length (xs ++ p ∷ zs) ≡ suc (length (xs ++ zs))
length-middle [] p zs = refl
length-middle (x ∷ xs) p zs = ap suc (length-middle xs p zs)

module _ (key : ℕ → String) where
  -- The first item with a key.
  abbrev pub address_of : String → List ℕ → Option ℕ
  address_of k [] = none
  address_of k (p ∷ ps) = if str_eq (key p) k then some p else address_of k ps

  -- No two items have the same key.
  abbrev pub KeysDiffer : List ℕ → Type 0
  KeysDiffer [] = Unit
  KeysDiffer (p ∷ ps) = (address_of (key p) ps ≡ none) × KeysDiffer ps

  pub address_of-middle :
      (k : String) (xs : List ℕ) (p : ℕ) (ys : List ℕ)
      → KeysDiffer (xs ++ p ∷ ys)
      → address_of k (xs ++ p ∷ ys) ≡ (if str_eq (key p) k then some p else address_of k (xs ++ ys))
  address_of-middle k [] p ys d = refl
  address_of-middle k (x ∷ xs) p ys d = ground (
    arith,
    address_of-middle k xs p ys d.1,
    address_of-middle (key x) xs p ys d.1,
    eq_iff (key x) k,
    eq_iff (key p) k,
    eq_iff (key p) (key x),
  )

  pub KeysDiffer-middle :
      (xs : List ℕ) (p : ℕ) (ys : List ℕ)
      → KeysDiffer (xs ++ p ∷ ys)
      → KeysDiffer (xs ++ ys) × (address_of (key p) (xs ++ ys) ≡ none)
  KeysDiffer-middle [] p ys d = (d.1, d.0)
  KeysDiffer-middle (x ∷ xs) p ys d =
      let rest = KeysDiffer-middle xs p ys d.1 in
      ground (
        arith,
        rest,
        address_of-middle (key x) xs p ys d.1,
        eq_iff (key p) (key x),
        eq_iff (key x) (key p),
      )

  -- Where a key stands.
  pub record Stands (k : String) (ps : List ℕ) (p : ℕ) : Type 0 where
    pub front : List ℕ
    pub back : List ℕ
    pub split : ps ≡ front ++ p ∷ back
    pub has_key : key p ≡ k

  pub Stands-address_of :
      (k : String) (ps : List ℕ) (p : ℕ) → address_of k ps ≡ some p → Stands k ps p
  Stands-address_of k [] p h = absurd (ground arith)
  Stands-address_of k (q ∷ ps) p h = elim (Bool-cases (str_eq (key q) k)) [
    | inl e ↦
        let same : q ≡ p = ground arith in
        record {
          front = [];
          back = ps;
          split = rw same refl;
          has_key = rw (← same) ((eq_iff (key q) k).0 e);
        }
    | inr e ↦
        let s = Stands-address_of k ps p (ground arith) in
        record {
          front = q ∷ s.front;
          back = s.back;
          split = ap (◌∷◌ q) s.split;
          has_key = s.has_key;
        }
  ]

-- The keys of other items do not matter.
pub address_of_same :
    (key key' : ℕ → String) (k : String) (ps : List ℕ)
    → ((q : ℕ) → has q ps ≡ true → key' q ≡ key q)
    → address_of key' k ps ≡ address_of key k ps
address_of_same key key' k [] h = refl
address_of_same key key' k (p ∷ ps) h =
    ground (arith, h p, address_of_same key key' k ps (λ q e. h q (ground arith)))

pub KeysDiffer-same :
    (key key' : ℕ → String) (ps : List ℕ)
    → ((q : ℕ) → has q ps ≡ true → key' q ≡ key q)
    → KeysDiffer key ps
    → KeysDiffer key' ps
KeysDiffer-same key key' [] h d = tt
KeysDiffer-same key key' (p ∷ ps) h d =
    let rest = λ (q : ℕ) (e : has q ps ≡ true). h q (ground arith) in
    (
      ground (arith, h p, address_of_same key key' (key p) ps rest),
      KeysDiffer-same key key' ps rest d.1,
    )
