-- ===== src/Cache/Lru/Rep.antt =====
-- What the state of the LRU cache stands for: the addresses of its items, the most recent first.
use mathlib.Core.List.{append_assoc}
use apigateway_distributed_s.Base.{
  ℕ, ◌<◌, ◌≡◌, refl, sym, subst, ◌∙◌, true, false, none, some, List, [], ◌∷◌, ◌++◌, String, length,
  arith, ◌==◌, str_eq, eq_iff, eq_refl, inl, inr, Bool-cases, All, lookup, delete, lookup-delete,
  Unique, Unique-delete, length-delete,
}
use apigateway_distributed_s.Cache.Lru.{Memory, LruCache}
use apigateway_distributed_s.Cache.Lru.Linked.{
  Linked, has, Distinct, nodes, last_of, first_of, link, link_front, has-append, ne_of_has,
  Linked-remove, Linked-add,
}
use apigateway_distributed_s.Cache.Lru.Keys.{
  Distinct-middle, All-middle, length-middle, address_of, KeysDiffer, address_of-middle,
  KeysDiffer-middle, address_of_same,
}

abbrev pub key_of : Memory → ℕ → String
key_of m p = (m.item p).key

-- The list links the items, the map finds them by their keys, and the fresh address is not in use.
pub record Rep (l : LruCache) (ps : List ℕ) : Type 0 where
  pub linked : Linked l.memory l.head ps l.tail
  pub distinct : Distinct (nodes l.head ps l.tail)
  pub below : All (λ p. p < l.memory.fresh) (nodes l.head ps l.tail)
  pub found : (k : String) → lookup k l.items ≡ address_of (key_of l.memory) k ps
  pub differ : KeysDiffer (key_of l.memory) ps
  pub unique : Unique l.items
  pub count : length l.items ≡ length ps

nodes_middle :
    (a : ℕ) (xs : List ℕ) (p : ℕ) (ys : List ℕ) (z : ℕ)
    → nodes a (xs ++ p ∷ ys) z ≡ a ∷ (xs ++ p ∷ (ys ++ z ∷ []))
nodes_middle a xs p ys z = rw (append_assoc xs (p ∷ ys) (z ∷ [])) refl

nodes_join : (a : ℕ) (xs ys : List ℕ) (z : ℕ) → nodes a (xs ++ ys) z ≡ a ∷ (xs ++ (ys ++ z ∷ []))
nodes_join a xs ys z = rw (append_assoc xs ys (z ∷ [])) refl

pub distinct_front :
    (a p : ℕ) (ns : List ℕ) → Distinct (a ∷ ns) → has p (a ∷ ns) ≡ false → Distinct (a ∷ p ∷ ns)
distinct_front a p ns d h = ground arith

pub has_fresh : (n : ℕ) (ns : List ℕ) → All (λ q. q < n) ns → has n ns ≡ false
has_fresh n [] h = refl
has_fresh n (q ∷ ns) h = ground (arith, has_fresh n ns h.1)

pub has_inner :
    (a : ℕ) (ps : List ℕ) (z n q : ℕ)
    → has n (nodes a ps z) ≡ false
    → has q ps ≡ true
    → (n == q) ≡ false
has_inner a ps z n q h e = ne_of_has n q (nodes a ps z) h (ground (arith, has-append q ps (z ∷ [])))

module _ (l : LruCache) (xs : List ℕ) (p : ℕ) (ys : List ℕ) (r : Rep l (xs ++ p ∷ ys)) where
  abbrev apart : Distinct (l.head ∷ (xs ++ p ∷ (ys ++ l.tail ∷ [])))
  apart = subst Distinct (nodes_middle l.head xs p ys l.tail) r.distinct

  pub Linked-without :
      Linked (link (last_of l.head xs) (first_of ys l.tail) l.memory) l.head (xs ++ ys) l.tail
  Linked-without = Linked-remove l.memory l.head xs p ys l.tail apart r.linked

  -- The item is none of the others, nor an end.
  pub Distinct-without :
      Distinct (nodes l.head (xs ++ ys) l.tail) × (has p (nodes l.head (xs ++ ys) l.tail) ≡ false)
  Distinct-without =
      subst (λ ns. Distinct ns × (has p ns ≡ false)) (sym (nodes_join l.head xs ys l.tail))
        (Distinct-middle (l.head ∷ xs) p (ys ++ l.tail ∷ []) apart)

  pub below_without :
      (p < l.memory.fresh) × All (λ q. q < l.memory.fresh) (nodes l.head (xs ++ ys) l.tail)
  below_without =
      subst (λ ns. (p < l.memory.fresh) × All (λ q. q < l.memory.fresh) ns)
        (sym (nodes_join l.head xs ys l.tail))
        (All-middle (λ q. q < l.memory.fresh) (l.head ∷ xs) p (ys ++ l.tail ∷ [])
          (subst (All (λ q. q < l.memory.fresh)) (nodes_middle l.head xs p ys l.tail) r.below))

  pub lookup_here : lookup (key_of l.memory p) l.items ≡ some p
  lookup_here =
      r.found (key_of l.memory p)
      ∙ address_of-middle (key_of l.memory) (key_of l.memory p) xs p ys r.differ
      ∙ rw (eq_refl (key_of l.memory p)) refl

  found_without :
      (k : String)
      → lookup k (delete (key_of l.memory p) l.items) ≡ address_of (key_of l.memory) k (xs ++ ys)
  found_without k =
      let none_left = (KeysDiffer-middle (key_of l.memory) xs p ys r.differ).1 in
      let at = r.found k ∙ address_of-middle (key_of l.memory) k xs p ys r.differ in
      lookup-delete (key_of l.memory p) k l.items
      ∙ elim (Bool-cases (str_eq (key_of l.memory p) k)) [
        | inl e ↦ rw e (
            sym (
              subst (λ j. address_of (key_of l.memory) j (xs ++ ys) ≡ none)
                ((eq_iff (key_of l.memory p) k).0 e) none_left))
        | inr e ↦ rw e (at ∙ rw e refl)
      ]

  -- The cache without an item.
  pub Rep-unlink :
      Rep
        (record l {
          items = delete (key_of l.memory p) l.items;
          memory = link (last_of l.head xs) (first_of ys l.tail) l.memory;
        })
        (xs ++ ys)
  Rep-unlink = record {
    linked = Linked-without;
    distinct = Distinct-without.0;
    below = below_without.1;
    found = λ k.
        found_without k
        ∙ sym (
            address_of_same (key_of l.memory)
              (key_of (link (last_of l.head xs) (first_of ys l.tail) l.memory)) k (xs ++ ys)
              (λ q e. refl));
    differ = (KeysDiffer-middle (key_of l.memory) xs p ys r.differ).0;
    unique = Unique-delete (key_of l.memory p) l.items r.unique;
    count = omega (
      arith,
      length-delete (key_of l.memory p) p l.items r.unique lookup_here,
      r.count,
      length-middle xs p ys,
    );
  }

  -- The cache with an item moved to the front.
  pub Rep-touch :
      Rep
        (record l {
          memory =
              link_front l.head p
                (first_of (xs ++ ys) l.tail)
                (link (last_of l.head xs) (first_of ys l.tail) l.memory);
        })
        (p ∷ (xs ++ ys))
  Rep-touch =
      let d = Distinct-without in
      let b = below_without in
      record {
        linked =
            Linked-add (link (last_of l.head xs) (first_of ys l.tail) l.memory) l.head p (xs ++ ys)
              l.tail (distinct_front l.head p _ d.0 d.1) Linked-without;
        distinct = distinct_front l.head p _ d.0 d.1;
        below = (b.1.0, (b.0, b.1.1));
        found = λ k. r.found k ∙ address_of-middle (key_of l.memory) k xs p ys r.differ;
        differ = let k = KeysDiffer-middle (key_of l.memory) xs p ys r.differ in (k.1, k.0);
        unique = r.unique;
        count = r.count ∙ length-middle xs p ys;
      }
