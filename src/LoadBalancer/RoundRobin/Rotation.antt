-- ===== src/LoadBalancer/RoundRobin/Rotation.antt =====
-- Round robin is fair: as many calls as there are targets serve each target once.
use mathlib.Core.List.{map-append}
use native.Mathlib.Nat.{mod-add-mod, mod-lt, mod-eq_of_lt, mod_self, suc-add, zero-add, add-zero}
use apigateway_distributed_s.Base.{
  ℕ, zero, suc, ◌+◌, ◌-◌, ◌%◌, ◌^◌, ◌≤◌, ◌<◌, ◌≡◌, refl, sym, subst, ◌∙◌, some, List, [], ◌∷◌, ◌++◌,
  map, arith, length, get_elem?, take, drop, get_elem?-total, length-drop, take_all,
}
use apigateway_distributed_s.LoadBalancer.RoundRobin.{RoundRobin, next_target, next_targets}

next-mod : (c m n : ℕ) → (c + 1) % n ≡ m % n → (c + 1 + 1) % n ≡ suc m % n
next-mod c m n e =
    let s : suc m ≡ m + 1 = omega arith in
    rw s (rw (← mod-add-mod (c + 1) n 1, e) (mod-add-mod m n 1))

module _ {ℓ} {U : Type ℓ} where
  abbrev at : List U → ℕ → RoundRobin U
  at ts c = record { targets = ts; current = c }

  step :
      (ts : List U) (c : ℕ)
      → 0 < length ts
      → c + 1 < 2 ^ 64
      → next_target (at ts c) ≡ (at ts (c + 1), get_elem? ts ((c + 1) % length ts))
  unfolding next_target
  step [] c h k = absurd (omega arith)
  step (t ∷ ts) c h k = let e : (c + 1) % 2 ^ 64 ≡ c + 1 = omega arith in rw e refl

  drop_at :
      (ts : List U) (m : ℕ) (a : U) → get_elem? ts m ≡ some a → drop m ts ≡ a ∷ drop (suc m) ts
  drop_at [] m a e = ground arith
  drop_at (t ∷ ts) zero a e = ground arith
  drop_at (t ∷ ts) (suc m) a e = drop_at ts m a e

  drop_all : (ts : List U) (m : ℕ) → take (length ts - m) (drop m ts) ≡ drop m ts
  drop_all ts m = take_all (length ts - m) (drop m ts) (omega (arith, length-drop m ts))

  serve :
      (k : ℕ) (ts : List U) (c m : ℕ)
      → 0 < length ts
      → m + k ≤ length ts
      → c + k < 2 ^ 64
      → (c + 1) % length ts ≡ m % length ts
      → next_targets k (at ts c) ≡ (at ts (c + k), map some (take k (drop m ts)))
  unfolding next_targets
  serve zero ts c m pos h b e = rw add-zero refl
  serve (suc k) ts c m pos h b e =
      let inside : m < length ts = omega arith in
      let (a, at_m) = get_elem?-total ts m inside in
      let here : m % length ts ≡ m = mod-eq_of_lt inside in
      let sum : c + 1 + k ≡ c + suc k = omega arith in
      rw
        (
          step ts c pos (omega arith),
          e,
          here,
          at_m,
          drop_at ts m a at_m,
          ← sum,
          serve k ts (c + 1) (suc m) pos (omega arith) (omega arith) (next-mod c m (length ts) e),
        )
        refl

  next_targets-add :
      (j k : ℕ) (rr : RoundRobin U)
      → next_targets (j + k) rr ≡ (
        (next_targets k (next_targets j rr).0).0,
        (next_targets j rr).1 ++ (next_targets k (next_targets j rr).0).1,
      )
  unfolding next_targets
  next_targets-add zero k rr = rw zero-add refl
  next_targets-add (suc j) k rr = rw suc-add (rw (next_targets-add j k (next_target rr).0) refl)

  -- From target `m` on to the end of the list, and then `m` more from its beginning.
  around :
      (ts : List U) (c m : ℕ)
      → m < length ts
      → c + length ts < 2 ^ 64
      → (c + 1) % length ts ≡ m
      → next_targets (length ts - m + m) (at ts c)
        ≡ (at ts (c + (length ts - m + m)), map some (drop m ts ++ take m ts))
  around ts c m inside b e =
      let n = length ts in
      let wrap : c + (n - m) + 1 ≡ c + 1 + (n - m) = omega arith in
      let whole : m + (n - m) ≡ n = omega arith in
      let zero_mod : 0 % n ≡ 0 = mod-eq_of_lt (omega arith) in
      let start : (c + (n - m) + 1) % n ≡ 0 % n =
        rw (wrap, ← mod-add-mod (c + 1) n (n - m), e, whole, mod_self, zero_mod) in
      let first =
        serve (n - m) ts c m (omega arith) (omega arith) (omega arith)
          (e ∙ sym (mod-eq_of_lt inside)) in
      let second = serve m ts (c + (n - m)) 0 (omega arith) (omega arith) (omega arith) start in
      let sum : c + (n - m) + m ≡ c + (n - m + m) = omega arith in
      rw (
        next_targets-add (n - m) m (at ts c),
        first,
        second,
        drop_all ts m,
        sum,
        map-append some (drop m ts) (take m ts),
      )

  -- Where there is a target, and while the counter does not wrap at 2^64, as many calls of
  -- `NextTarget` as there are targets answer with the rotation of the target list that starts behind
  -- the counter, so with each target exactly once, and leave the targets as they were.
  pub next_targets-rotation :
      (rr : RoundRobin U)
      → 0 < length rr.targets
      → rr.current + length rr.targets < 2 ^ 64
      → let n = length rr.targets in
        let m = (rr.current + 1) % n in
        next_targets n rr ≡ (
          record rr { current = rr.current + n },
          map some (drop m rr.targets ++ take m rr.targets),
        )
  next_targets-rotation rr pos b =
      let n = length rr.targets in
      let inside : (rr.current + 1) % n < n = mod-lt _ pos in
      let whole : n - (rr.current + 1) % n + (rr.current + 1) % n ≡ n = omega arith in
      subst
        (λ k. next_targets k rr ≡ (
          record rr { current = rr.current + k },
          map some
              (drop ((rr.current + 1) % n) rr.targets ++ take ((rr.current + 1) % n) rr.targets),
        ))
        whole (around rr.targets rr.current ((rr.current + 1) % n) inside b refl)
