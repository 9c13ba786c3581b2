-- ===== src/Cache/Lru/Linked.antt =====
-- The doubly linked list of the LRU cache, and what its three operations do to it.
use apigateway_distributed_s.Base.{
  ℕ, ◌≡◌, refl, Bool, true, false, ◌||◌, some, List, [], ◌∷◌, ◌++◌, arith, ap, inl, inr, Bool-cases,
  ==_iff, ◌==◌,
}
use apigateway_distributed_s.Cache.Lru.{Memory, set_prev, set_next, remove_item, add_to_front}

-- From `a` the links lead through the items `ps` to `z`, and back.
abbrev pub Linked : Memory → ℕ → List ℕ → ℕ → Type 0
Linked m a [] z = (m.next a ≡ some z) × (m.prev z ≡ some a)
Linked m a (p ∷ ps) z = (m.next a ≡ some p) × (m.prev p ≡ some a) × Linked m p ps z

abbrev pub has : ℕ → List ℕ → Bool
has a [] = false
has a (p ∷ ps) = (a == p) || has a ps

abbrev pub Distinct : List ℕ → Type 0
Distinct [] = Unit
Distinct (p ∷ ps) = (has p ps ≡ false) × Distinct ps

abbrev pub last_of : ℕ → List ℕ → ℕ
last_of a [] = a
last_of a (x ∷ xs) = last_of x xs

abbrev pub first_of : List ℕ → ℕ → ℕ
first_of [] z = z
first_of (y ∷ ys) z = y

-- The links of `a` and `b` made to each other.
abbrev pub link : ℕ → ℕ → Memory → Memory
link a b m = set_prev b (some a) (set_next a (some b) m)

pub frame :
    (m n : Memory) (a : ℕ) (ps : List ℕ) (z : ℕ)
    → Linked m a ps z
    → ((q : ℕ) → has q (a ∷ ps) ≡ true → n.next q ≡ m.next q)
    → ((q : ℕ) → has q (ps ++ z ∷ []) ≡ true → n.prev q ≡ m.prev q)
    → Linked n a ps z
frame m n a [] z h f g = ground (arith, f a, g z)
frame m n a (p ∷ ps) z h f g = (
  ground (arith, f a),
  ground (arith, g p),
  frame m n p ps z h.2 (λ q e. f q (ground arith)) (λ q e. g q (ground arith)),
)

pub ne_of_has : (a b : ℕ) (ps : List ℕ) → has a ps ≡ false → has b ps ≡ true → (a == b) ≡ false
ne_of_has a b ps h k = elim (Bool-cases (a == b)) [
  | inr e ↦ e
  | inl e ↦ let same : a ≡ b = (==_iff a b).0 e in absurd (ground (arith, ap (λ c. has c ps) same))
]

pub has-last_of : (a : ℕ) (xs ys : List ℕ) → has (last_of a xs) (a ∷ (xs ++ ys)) ≡ true
has-last_of a [] ys = ground arith
has-last_of a (x ∷ xs) ys = ground (arith, has-last_of x xs ys)

pub has-first_of : (xs ys : List ℕ) (z : ℕ) → has (first_of ys z) (xs ++ (ys ++ z ∷ [])) ≡ true
has-first_of [] [] z = ground arith
has-first_of [] (y ∷ ys) z = ground arith
has-first_of (x ∷ xs) ys z = ground (arith, has-first_of xs ys z)

pub has-append : (a : ℕ) (xs ys : List ℕ) → has a (xs ++ ys) ≡ (has a xs || has a ys)
has-append a [] ys = refl
has-append a (x ∷ xs) ys = ground (arith, has-append a xs ys)

-- `before` and `after` an item of the list.
pub links_of :
    (m : Memory) (a : ℕ) (xs : List ℕ) (p : ℕ) (ys : List ℕ) (z : ℕ)
    → Linked m a (xs ++ p ∷ ys) z
    → (m.prev p ≡ some (last_of a xs)) × (m.next p ≡ some (first_of ys z))
links_of m a [] p [] z h = (h.1, h.2.0)
links_of m a [] p (y ∷ ys) z h = (h.1, h.2.0)
links_of m a (x ∷ xs) p ys z h = links_of m x xs p ys z h.2

-- All items of a list, with its two ends.
abbrev pub nodes : ℕ → List ℕ → ℕ → List ℕ
nodes a ps z = a ∷ (ps ++ z ∷ [])

-- A link between two items spares a list that lies behind both.
frame_link :
    (m : Memory) (a b : ℕ) (c : ℕ) (ps : List ℕ) (z : ℕ)
    → Linked m c ps z
    → has a (nodes c ps z) ≡ false
    → has b (ps ++ z ∷ []) ≡ false
    → Linked (link a b m) c ps z
frame_link m a b c ps z h ha hb =
    frame m (link a b m) c ps z h
      (λ q e.
        rw (ne_of_has a q (nodes c ps z) ha (ground (arith, has-append q (c ∷ ps) (z ∷ [])))) refl)
      (λ q e. rw (ne_of_has b q (ps ++ z ∷ []) hb e) refl)

-- The list without an item, when its neighbours are linked to each other.
pub Linked-remove :
    (m : Memory) (a : ℕ) (xs : List ℕ) (p : ℕ) (ys : List ℕ) (z : ℕ)
    → Distinct (a ∷ (xs ++ p ∷ (ys ++ z ∷ [])))
    → Linked m a (xs ++ p ∷ ys) z
    → Linked (link (last_of a xs) (first_of ys z) m) a (xs ++ ys) z
Linked-remove m a [] p [] z d h = ground arith
Linked-remove m a [] p (y ∷ ys) z d h =
    (ground arith, ground arith, frame_link m a y y ys z h.2.2 (ground arith) (ground arith))
Linked-remove m a (x ∷ xs) p ys z d h =
    let rest = Linked-remove m x xs p ys z d.1 h.2 in
    let far : (a == last_of x xs) ≡ false =
      ne_of_has a (last_of x xs) (x ∷ (xs ++ p ∷ (ys ++ z ∷ []))) d.0
        (has-last_of x xs (p ∷ (ys ++ z ∷ []))) in
    let near : (x == first_of ys z) ≡ false =
      ne_of_has x (first_of ys z) (xs ++ p ∷ (ys ++ z ∷ [])) d.1.0 (
        ground (
          arith,
          has-append (first_of ys z) xs (p ∷ (ys ++ z ∷ [])),
          has-first_of (p ∷ []) ys z,
        )) in
    (ground arith, ground arith, rest)

-- What `addToFront` writes, where `after` is the first item so far.
abbrev pub link_front : ℕ → ℕ → ℕ → Memory → Memory
link_front head p after m =
    set_next head (some p)
      (set_prev after (some p) (set_next p (some after) (set_prev p (some head) m)))

-- The list with a new item in front.
pub Linked-add :
    (m : Memory) (head p : ℕ) (ps : List ℕ) (z : ℕ)
    → Distinct (head ∷ p ∷ (ps ++ z ∷ []))
    → Linked m head ps z
    → Linked (link_front head p (first_of ps z) m) head (p ∷ ps) z
Linked-add m head p [] z d h = ground arith
Linked-add m head p (y ∷ ys) z d h =
    let m' = link_front head p y m in
    let apart = λ (c q : ℕ) (hc : has c (y ∷ (ys ++ z ∷ [])) ≡ false) (e : has q (y ∷ ys) ≡ true).
      ne_of_has c q (y ∷ (ys ++ z ∷ [])) hc (ground (arith, has-append q (y ∷ ys) (z ∷ []))) in
    (
      ground arith,
      ground arith,
      (
        ground arith,
        ground arith,
        frame m m' y ys z h.2
            (λ q e. rw (apart head q (ground arith) e, apart p q (ground arith) e) refl)
            (λ q e.
              rw
                (
                  ne_of_has y q (ys ++ z ∷ []) (ground arith) e,
                  ne_of_has p q (ys ++ z ∷ []) (ground arith) e,
                )
                refl),
      ),
    )

remove_item-of :
    (m : Memory) (p a b : ℕ)
    → m.prev p ≡ some a
    → m.next p ≡ some b
    → remove_item p m ≡ some (link a b m)
unfolding remove_item
remove_item-of m p a b ha hb = elim (Bool-cases (a == p)) [
  | inl e ↦ rw (ha, remove_item, e, hb) refl
  | inr e ↦ rw (ha, remove_item, e, hb) refl
]

-- `removeItem` links the neighbours to each other.
pub remove_item_lem :
    (m : Memory) (a : ℕ) (xs : List ℕ) (p : ℕ) (ys : List ℕ) (z : ℕ)
    → Linked m a (xs ++ p ∷ ys) z
    → remove_item p m ≡ some (link (last_of a xs) (first_of ys z) m)
remove_item_lem m a xs p ys z h =
    let links = links_of m a xs p ys z h in
    remove_item-of m p (last_of a xs) (first_of ys z) links.0 links.1

pub next_of :
    (m : Memory) (a : ℕ) (ps : List ℕ) (z : ℕ) → Linked m a ps z → m.next a ≡ some (first_of ps z)
next_of m a [] z h = h.0
next_of m a (p ∷ ps) z h = h.0

pub prev_of :
    (m : Memory) (a : ℕ) (ps : List ℕ) (z : ℕ) → Linked m a ps z → m.prev z ≡ some (last_of a ps)
prev_of m a [] z h = h.1
prev_of m a (p ∷ ps) z h = prev_of m p ps z h.2

add_to_front-of :
    (m : Memory) (head p f : ℕ)
    → (p == head) ≡ false
    → m.next head ≡ some f
    → add_to_front head p m ≡ some (link_front head p f m)
unfolding add_to_front
add_to_front-of m head p f d h = rw (d, add_to_front, h) refl

-- `addToFront` links the item between the head and the first item.
pub add_to_front_lem :
    (m : Memory) (head p : ℕ) (ps : List ℕ) (z : ℕ)
    → (p == head) ≡ false
    → Linked m head ps z
    → add_to_front head p m ≡ some (link_front head p (first_of ps z) m)
add_to_front_lem m head p ps z d h =
    add_to_front-of m head p (first_of ps z) d (next_of m head ps z h)
