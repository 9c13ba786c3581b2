-- ===== src/Auth/Text.antt =====
-- What jwt.go uses of Go's package strings: `Split` at a space and `TrimPrefix`.
use Prim.Native.Char.{char, code}
use text.Mathlib.TextLemmas.{nil≢cons, nil-append, cons-append, append_assoc}
use apigateway_distributed_s.Base.{
  ◌≡◌, refl, Bool, true, false, not, ◌&&◌, Option, none, some, String, List, [], ◌∷◌, arith, ◌==◌,
  if◌then◌else◌, concat, str_eq, eq_iff, sym, ◌∙◌, inl, inr, Bool-cases,
}

abbrev pub is_space : Prim.Native.Char.Char → Bool
is_space c = code c == b' '

abbrev pub no_space : String → Bool
no_space String.[] = true
no_space (String.◌∷◌ c s) = not (is_space c) && no_space s

-- A character in front of the first part.
abbrev pub prepend : Prim.Native.Char.Char → List String → List String
prepend c [] = (String.◌∷◌ c String.[]) ∷ []
prepend c (p ∷ ps) = String.◌∷◌ c p ∷ ps

unfoldable pub split : String → List String
split String.[] = String.[] ∷ []
split (String.◌∷◌ c s) =
    let parts = split s in if is_space c then String.[] ∷ parts else prepend c parts

-- What is left of a text after a prefix, if it has that prefix.
unfoldable pub strip : String → String → Option String
strip String.[] s = some s
strip (String.◌∷◌ c p) String.[] = none
strip (String.◌∷◌ c p) (String.◌∷◌ d s) =
    let rest = strip p s in if code c == code d then rest else none

unfoldable pub trim_prefix : String → String → String
unfolding strip
trim_prefix s prefix = elim (strip prefix s) [ none ↦ s | some rest ↦ rest ]

pub split-no_space : (s : String) → no_space s ≡ true → split s ≡ s ∷ []
unfolding split
split-no_space String.[] h = refl
split-no_space (String.◌∷◌ c s) h =
    let rest : split s ≡ s ∷ [] = split-no_space s (ground arith) in
    let letter : is_space c ≡ false = ground arith in rw (letter, rest) refl

-- A first word, and what follows it after a space.
split-word : (w t : String) → no_space w ≡ true → split (concat w (concat " " t)) ≡ w ∷ split t
unfolding split
split-word String.[] t h =
    rw (nil-append (concat " " t), cons-append (char 32 tt) "" t, nil-append t) refl
split-word (String.◌∷◌ c w) t h =
    let rest : split (concat w (concat " " t)) ≡ w ∷ split t = split-word w t (ground arith) in
    let letter : is_space c ≡ false = ground arith in
    rw (cons-append c w (concat " " t), letter, rest) refl

pub split-bearer : (t : String) → split (concat "Bearer " t) ≡ "Bearer" ∷ split t
split-bearer t = rw (append_assoc "Bearer" " " t) (split-word "Bearer" t refl)

-- A text without a space does not begin with a prefix that has one.
strip-no_space : (p s : String) → no_space p ≡ false → no_space s ≡ true → strip p s ≡ none
unfolding strip
strip-no_space String.[] s hp hs = absurd (ground arith)
strip-no_space (String.◌∷◌ c p) String.[] hp hs = refl
strip-no_space (String.◌∷◌ c p) (String.◌∷◌ d s) hp hs = ground (arith, strip-no_space p s)

pub trim_prefix-no_space : (s : String) → no_space s ≡ true → trim_prefix s "Bearer " ≡ s
unfolding trim_prefix
trim_prefix-no_space s h = rw (strip-no_space "Bearer " s refl h, trim_prefix) refl

pub bearer_not_empty : (t : String) → str_eq (concat "Bearer " t) "" ≡ false
bearer_not_empty t = elim (Bool-cases (str_eq (concat "Bearer " t) "")) [
  | inr e ↦ e
  | inl e ↦ absurd (nil≢cons (sym ((eq_iff _ "").0 e) ∙ cons-append (char 66 tt) "earer " t))
]
