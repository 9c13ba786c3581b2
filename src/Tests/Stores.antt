-- ===== src/Tests/Stores.antt =====
-- A go-cache and a Redis that do what is documented, on a map from the keys to values with the time
-- at which they expire.
use mathlib.Core.Option
use text.Mathlib.TextLemmas.{cons-append, nil-append}
use apigateway_distributed_s.Base.{
  ℕ, ◌+◌, ◌≤◌, ◌<◌, ◌≡◌, refl, sym, ap, subst, ◌∙◌, inl, inr, Bool, true, false, Option, none, some,
  List, [], ◌∷◌, String, concat, str_eq, eq_iff, eq_refl, ltb, if◌then◌else◌, Bool-cases, arith,
  Dict, lookup, insert, delete, lookup-insert, lookup-delete,
}
use apigateway_distributed_s.Base.Int.{ℤ, pos, negsuc, pos_part, ltb_ℤ, sub_ℕ}
use apigateway_distributed_s.Cache.{Bytes}
use apigateway_distributed_s.Cache.Memory.{GoCache, Any}
use apigateway_distributed_s.Cache.Redis.{RedisServer, milliseconds, starts_with, is_among}

abbrev live : {A : Type 0} → ℕ → Option (A × Option ℕ) → Option (A × Option ℕ)
live now none = none
live now (some (v, none)) = some (v, none)
live now (some (v, some t)) = if ltb t now then none else some (v, some t)

abbrev deadline : ℕ → ℤ → Option ℕ
deadline now t = if ltb_ℤ (pos 0) t then some (now + pos_part t) else none

abbrev live_items : ℕ → Dict (Any × Option ℕ) → Dict Any
live_items now [] = []
live_items now ((k, (v, none)) ∷ c) = (k, v) ∷ live_items now c
live_items now ((k, (v, some t)) ∷ c) =
    let rest = live_items now c in if ltb t now then rest else (k, v) ∷ rest

pub lookup-insert_same :
    {A : Type 0} (k : String) (v : A) (c : Dict A) → lookup k (insert k v c) ≡ some v
lookup-insert_same k v c = lookup-insert k k v c ∙ rw (eq_refl k) refl

pub lookup-insert_apart :
    {A : Type 0} (k j : String) (v : A) (c : Dict A)
    → str_eq k j ≡ false
    → lookup j (insert k v c) ≡ lookup j c
lookup-insert_apart k j v c h = lookup-insert k j v c ∙ rw h refl

pub live-if :
    {A : Type 0} (now : ℕ) (b : Bool) (o : Option (A × Option ℕ))
    → live now (if b then none else o) ≡ (if b then none else live now o)
live-if now true o = refl
live-if now false o = refl

pub get_of_empty : {A : Type 0} (now : ℕ) (k : String) → live {A = A} now (lookup k []) ≡ none
unfolding lookup
get_of_empty now k = refl

pub live_early :
    {A : Type 0} (v : A) (now t : ℕ) → now ≤ t → live now (some (v, some t)) ≡ some (v, some t)
live_early v now t h = ground arith

pub live_late : {A : Type 0} (v : A) (now t : ℕ) → t < now → live now (some (v, some t)) ≡ none
live_late v now t h = ground arith

pub live_forever :
    {A : Type 0} (v : A) (now later : ℕ) (t : ℤ)
    → ltb_ℤ t (pos 0) ≡ true
    → live later (some (v, deadline now t)) ≡ some (v, none)
live_forever v now later t h = ground arith

abbrev pub map_cache : GoCache (Dict (Any × Option ℕ))
map_cache = record {
  new = λ d. [];
  get_with_expiration = λ now k c. live now (lookup k c);
  get = λ now k c. Option.map (λ e. e.0) (live now (lookup k c));
  set = λ now k v t c. insert k (v, deadline now t) c;
  delete = delete;
  flush = λ c. [];
  items = live_items;
  get-get_with_expiration = λ now k c. refl;
  get-new = λ d now k. get_of_empty now k;
  get-set = λ now later k v t c positive early.
      rw (lookup-insert_same k (v, deadline now t) c, positive)
        (live_early v later (now + pos_part t) early);
  get-set_late = λ now later k v t c positive late.
      rw (lookup-insert_same k (v, deadline now t) c, positive)
        (live_late v later (now + pos_part t) late);
  get-set_forever = λ now later k v t c negative.
      rw (lookup-insert_same k (v, deadline now t) c) (live_forever v now later t negative);
  get-set_other =
      λ now later k j v t c apart. rw (lookup-insert_apart k j (v, deadline now t) c apart) refl;
  get-delete = λ now k j c. rw (lookup-delete k j c) (live-if now (str_eq k j) (lookup j c));
  get-flush = λ now k c. get_of_empty now k;
}

-- The text before the star of a pattern.
abbrev before_star : String → String
before_star String.[] = String.[]
before_star (String.◌∷◌ c String.[]) = String.[]
before_star (String.◌∷◌ c (String.◌∷◌ d s)) = String.◌∷◌ c (before_star (String.◌∷◌ d s))

pub before_star_lem : (p : String) → before_star (concat p "*") ≡ p
before_star_lem String.[] = refl
before_star_lem (String.◌∷◌ c String.[]) =
    ap before_star (cons-append c "" "*" ∙ ap (String.◌∷◌ c) (nil-append "*"))
before_star_lem (String.◌∷◌ c (String.◌∷◌ d s)) =
    rw (cons-append c (String.◌∷◌ d s) "*", cons-append d s "*")
      (ap (String.◌∷◌ c) (
        subst (λ q. before_star q ≡ String.◌∷◌ d s) (cons-append d s "*")
          (before_star_lem (String.◌∷◌ d s))))

abbrev names_below : {A : Type 0} → String → Dict A → List String
names_below p [] = []
names_below p ((k, v) ∷ r) =
    let rest = names_below p r in if starts_with p k then k ∷ rest else rest

names_below-false :
    {A : Type 0} (p k : String) (r : Dict A)
    → starts_with p k ≡ false
    → is_among k (names_below p r) ≡ false
names_below-false p k [] h = refl
names_below-false p k ((j, w) ∷ r) h = elim (Bool-cases (str_eq j k)) [
  | inl e ↦
      let none_here : starts_with p j ≡ false =
        subst (λ i. starts_with p i ≡ false) (sym ((eq_iff j k).0 e)) h in
      rw none_here (names_below-false p k r h)
  | inr e ↦ elim (Bool-cases (starts_with p j)) [
    | inl f ↦ rw (f, e) (names_below-false p k r h)
    | inr f ↦ rw f (names_below-false p k r h)
  ]
]

names_below-true :
    {A : Type 0} (p k : String) (v : A) (r : Dict A)
    → starts_with p k ≡ true
    → lookup k r ≡ some v
    → is_among k (names_below p r) ≡ true
unfolding lookup
names_below-true p k v [] h there = absurd (ground arith)
names_below-true p k v ((j, w) ∷ r) h there = elim (Bool-cases (str_eq j k)) [
  | inl e ↦
      let here : starts_with p j ≡ true =
        subst (λ i. starts_with p i ≡ true) (sym ((eq_iff j k).0 e)) h in
      rw (here, e) refl
  | inr e ↦
      let rest = names_below-true p k v r h (ground arith) in
      elim (Bool-cases (starts_with p j)) [ inl f ↦ rw (f, e) rest | inr f ↦ rw f rest ]
]

pub is_among-names_below :
    {A : Type 0} (p k : String) (v : A) (r : Dict A)
    → lookup k r ≡ some v
    → is_among k (names_below p r) ≡ starts_with p k
is_among-names_below p k v r there = elim (Bool-cases (starts_with p k)) [
  | inl e ↦ names_below-true p k v r e there ∙ sym e
  | inr e ↦ names_below-false p k r e ∙ sym e
]

abbrev del_all : {A : Type 0} → List String → Dict A → Dict A
del_all [] r = r
del_all (k ∷ ks) r = delete k (del_all ks r)

pub lookup-del_all :
    {A : Type 0} (ks : List String) (k : String) (r : Dict A)
    → lookup k (del_all ks r) ≡ (if is_among k ks then none else lookup k r)
lookup-del_all [] k r = refl
lookup-del_all (j ∷ ks) k r =
    lookup-delete j k (del_all ks r) ∙ ground (arith, lookup-del_all ks k r)

abbrev value_of : {A : Type 0} → Option (A × Option ℕ) → Option A
value_of o = Option.map (λ e. e.0) o

pub value-live-if :
    {A : Type 0} (now : ℕ) (b : Bool) (o : Option (A × Option ℕ))
    → value_of (live now (if b then none else o)) ≡ (if b then none else value_of (live now o))
value-live-if now true o = refl
value-live-if now false o = refl

pub early_enough :
    {A : Type 0} (v : A) (now t : ℕ) → now < t → value_of (live now (some (v, some t))) ≡ some v
early_enough v now t h = ground arith

pub lookup_of_live :
    {A : Type 0} (now : ℕ) (v : A) (o : Option (A × Option ℕ))
    → value_of (live now o) ≡ some v
    → (e : A × Option ℕ) × (o ≡ some e)
lookup_of_live now v none h = absurd (ground arith)
lookup_of_live now v (some e) h = (e, refl)

abbrev pub map_redis : RedisServer (Dict (Bytes × Option ℕ))
map_redis = record {
  get = λ now k r. value_of (live now (lookup k r));
  set = λ now k v t r.
      insert k (v, if ltb_ℤ (pos 0) t then some (now + milliseconds (pos_part t)) else none) r;
  del = del_all;
  exists_count = λ now k r. elim (live now (lookup k r)) [ none ↦ 0 | some e ↦ 1 ];
  keys = λ now pattern r. names_below (before_star pattern) r;
  ttl = λ now k r. elim (live now (lookup k r)) [
    | none ↦ negsuc 1
    | some (v, none) ↦ negsuc 0
    | some (v, some t) ↦ sub_ℕ t now
  ];
  get-set = λ now later k v t r positive early.
      rw
        (
          lookup-insert_same k
              (v, if ltb_ℤ (pos 0) t then some (now + milliseconds (pos_part t)) else none) r,
          positive,
        )
        (early_enough v later (now + milliseconds (pos_part t)) early);
  get-set_forever = λ now later k v r. rw (lookup-insert_same k (v, none) r) refl;
  get-set_other = λ now later k j v t r apart.
      rw
        (lookup-insert_apart k j
          (v, if ltb_ℤ (pos 0) t then some (now + milliseconds (pos_part t)) else none) r apart)
        refl;
  get-del =
      λ now ks k r. rw (lookup-del_all ks k r) (value-live-if now (is_among k ks) (lookup k r));
  keys-star = λ now p k v r plain there.
      let (e, h) = lookup_of_live now v (lookup k r) there in
      rw (before_star_lem p) (is_among-names_below p k e r h);
}
