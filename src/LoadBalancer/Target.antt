-- ===== src/LoadBalancer/Target.antt =====
-- What the balancers of pkg/loadbalancer/load_balancer.go share: the loops over the targets that
-- stop at the first entry whose URL prints like the one given.
use apigateway_distributed_s.Base.{
  ℕ, zero, suc, String, ◌≡◌, refl, sym, ap, subst, inl, inr, false, some, List, [], ◌∷◌, map,
  str_eq, eq_iff, arith, if◌then◌else◌, Bool-cases, set, get_elem?, All, All-set, All-get_elem?,
}

module _ {ℓ} {T : Type ℓ} where
  -- `append(targets[:i], targets[i+1:]...)` at the first match; `url_of` reads the entry's URL and
  -- prints it.
  unfoldable pub remove_first : (T → String) → String → List T → List T
  remove_first url_of target [] = []
  remove_first url_of target (t ∷ ts) =
      if str_eq (url_of t) target then ts else t ∷ remove_first url_of target ts

  -- A write to a field of the first match.
  unfoldable pub update_first : (T → String) → String → (T → T) → List T → List T
  update_first url_of target f [] = []
  update_first url_of target f (t ∷ ts) =
      if str_eq (url_of t) target then f t ∷ ts else t ∷ update_first url_of target f ts

-- The removal commutes with the reading of the URLs.
pub map-remove_first {ℓ κ} :
    {T : Type ℓ} {U : Type κ} (to_string : U → String) (url : T → U) (target : String) (ts : List T)
    → map url (remove_first (λ t. to_string (url t)) target ts)
      ≡ remove_first to_string target (map url ts)
unfolding remove_first
map-remove_first to_string url target [] = refl
map-remove_first to_string url target (t ∷ ts) =
    elim (Bool-cases (str_eq (to_string (url t)) target)) [
      | inl hit ↦ rw hit refl
      | inr miss ↦ rw miss (ap (◌∷◌ (url t)) (map-remove_first to_string url target ts))
    ]

-- A write to another field than the URL leaves the URLs.
pub map-update_first {ℓ κ} :
    {T : Type ℓ} {U : Type κ} (to_string : U → String) (url : T → U) (target : String) (f : T → T)
    → ((t : T) → url (f t) ≡ url t)
    → (ts : List T) → map url (update_first (λ t. to_string (url t)) target f ts) ≡ map url ts
unfolding update_first
map-update_first to_string url target f h [] = refl
map-update_first to_string url target f h (t ∷ ts) =
    elim (Bool-cases (str_eq (to_string (url t)) target)) [
      | inl hit ↦ rw hit (ap (λ u. u ∷ map url ts) (h t))
      | inr miss ↦ rw miss (ap (◌∷◌ (url t)) (map-update_first to_string url target f h ts))
    ]

-- No two entries print the same URL.
abbrev pub Distinct {ℓ} : {T : Type ℓ} → (T → String) → List T → Type 0
Distinct url_of [] = Unit
Distinct url_of (t ∷ ts) = All (λ u. str_eq (url_of t) (url_of u) ≡ false) ts × Distinct url_of ts

module _ {ℓ} {T : Type ℓ} (url_of : T → String) where
  -- With distinct URLs an update reaches the one entry that has the URL.
  pub update_first-at :
      (f : T → T) (ts : List T) (j : ℕ) (t : T)
      → Distinct url_of ts
      → get_elem? ts j ≡ some t
      → update_first url_of (url_of t) f ts ≡ set ts j (f t)
  unfolding update_first
  update_first-at f [] j t d e = refl
  update_first-at f (x ∷ ts) zero t d e = ground (arith, eq_iff (url_of x) (url_of t))
  update_first-at f (x ∷ ts) (suc j) t d e =
      rw (All-get_elem? (λ u. str_eq (url_of x) (url_of u) ≡ false) ts j t d.0 e)
        (ap (◌∷◌ x) (update_first-at f ts j t d.1 e))

  pub Distinct-set :
      (ts : List T) (j : ℕ) (t u : T)
      → get_elem? ts j ≡ some t
      → url_of u ≡ url_of t
      → Distinct url_of ts
      → Distinct url_of (set ts j u)
  Distinct-set [] j t u e h d = tt
  Distinct-set (x ∷ ts) zero t u e h d =
      let same : url_of u ≡ url_of x = ground arith in
      (subst (λ s. All (λ v. str_eq s (url_of v) ≡ false) ts) (sym same) d.0, d.1)
  Distinct-set (x ∷ ts) (suc j) t u e h d = (
    All-set (λ v. str_eq (url_of x) (url_of v) ≡ false) ts j u d.0
        (rw h (All-get_elem? (λ v. str_eq (url_of x) (url_of v) ≡ false) ts j t d.0 e)),
    Distinct-set ts j t u e h d.1,
  )
