-- ===== src/Prelude/Keyed.antt =====
-- Go's map[string]V, as a list of keys and values. Its order is unspecified in Go, and no lemma speaks
-- of it.
use Prim.Native.String.{String}
use mathlib.Core.Path.{◌≡◌}
use mathlib.Core.Bool.{not}
use mathlib.Core.Option.{Option, none, some}
use mathlib.Core.List.{List, [], ◌∷◌}
use inline_chat.Prelude.Tests.{str_eq, if◌then◌else◌}
use inline_chat.Prelude.Lists.{filter}
use inline_chat.Prelude.{true, arith, All, eq_iff, ap, All-filter, ◌∙◌, sym}

str_eq-meet : (j k l : String) → str_eq j l ≡ true → str_eq k l ≡ true → str_eq j k ≡ true
str_eq-meet j k l h h' = (eq_iff j k).1 ((eq_iff j l).0 h ∙ sym ((eq_iff k l).0 h'))

str_eq-same : (j k l : String) → str_eq j k ≡ true → str_eq j l ≡ str_eq k l
str_eq-same j k l h = ap (λ x. str_eq x l) ((eq_iff j k).0 h)

module _ {ℓ} {V : Type ℓ} where
  abbrev pub lookup : String → List (String × V) → Option V
  lookup k [] = none
  lookup k ((j, v) ∷ m) = if str_eq j k then some v else lookup k m

  abbrev pub remove : String → List (String × V) → List (String × V)
  remove k = filter (λ e. not (str_eq e.0 k))

  abbrev pub assign : String → V → List (String × V) → List (String × V)
  assign k v m = (k, v) ∷ remove k m

  pub lookup-remove :
      (k k' : String) (m : List (String × V))
      → lookup k' (remove k m) ≡ (if str_eq k k' then none else lookup k' m)
  lookup-remove k k' [] = ground arith
  lookup-remove k k' ((j, v) ∷ m) =
      ground (arith, lookup-remove k k' m, str_eq-meet j k k', str_eq-same j k k')

  pub lookup-assign :
      (k k' : String) (v : V) (m : List (String × V))
      → lookup k' (assign k v m) ≡ (if str_eq k k' then some v else lookup k' m)
  lookup-assign k k' v m = ground (arith, lookup-remove k k' m)

  -- A predicate of all entries stays one of the rest.
  pub All-remove {κ} :
      (P : String × V → Type κ) (k : String) (m : List (String × V)) → All P m → All P (remove k m)
  All-remove P k m h = All-filter P _ m h
