-- ===== src/Base/Dict.antt =====
-- Python's `dict` with text keys, in insertion order. A `dict` holds a key once, which is
-- `IsKeyed`.
use mathlib.Core.Path.{◌≡◌, refl}
use mathlib.Core.Bool.{false}
use mathlib.Core.Logic.{inl, inr}
use mathlib.Core.List.{List, [], ◌∷◌}
use mathlib.Core.Option.{Option, none, some}
use Prim.Native.String.{String}
use text.Mathlib.Text.{◌==◌}
use text.Mathlib.TextEquality.{eq_iff}
use native.Mathlib.Omega.{arith}
use clipper_ai.Base.Tests.{if◌then◌else◌}
use clipper_ai.Base.Lists.{Occurs}

abbrev pub Dict : Type 0 → Type 0
Dict V = List (String × V)

module _ {V : Type 0} where
  -- `d.get(k)`
  unfoldable pub lookup : String → Dict V → Option V
  lookup k [] = none
  lookup k ((j, v) ∷ d) = if j == k then some v else lookup k d

  -- `d[k] = v`: in place if the key is there, at the end if not
  unfoldable pub insert : String → V → Dict V → Dict V
  insert k v [] = (k, v) ∷ []
  insert k v ((j, w) ∷ d) = if j == k then (j, v) ∷ d else (j, w) ∷ insert k v d

  -- `del d[k]`
  unfoldable pub erase : String → Dict V → Dict V
  erase k [] = []
  erase k ((j, w) ∷ d) = if j == k then d else (j, w) ∷ erase k d

  -- `d.values()`
  unfoldable pub values : Dict V → List V
  values [] = []
  values ((_, v) ∷ d) = v ∷ values d

  -- `for v in d.values(): …` where the loop changes the values in place
  unfoldable pub map_values : (V → V) → Dict V → Dict V
  map_values f [] = []
  map_values f ((k, v) ∷ d) = (k, f v) ∷ map_values f d

  pub lookup-map_values-none :
      (f : V → V) (k : String) (d : Dict V) → lookup k d ≡ none → lookup k (map_values f d) ≡ none
  unfolding lookup map_values
  lookup-map_values-none f k [] e = refl
  lookup-map_values-none f k ((j, w) ∷ d) e = ground (arith, lookup-map_values-none f k d)

  pub lookup-map_values-some :
      (f : V → V) (k : String) (v : V) (d : Dict V)
      → lookup k d ≡ some v
      → lookup k (map_values f d) ≡ some (f v)
  unfolding lookup map_values
  lookup-map_values-some f k v [] e = cc
  lookup-map_values-some f k v ((j, w) ∷ d) e = ground (arith, lookup-map_values-some f k v d)

  pub lookup-insert :
      (k j : String) (v : V) (d : Dict V)
      → lookup j (insert k v d) ≡ (if k == j then some v else lookup j d)
  unfolding lookup insert
  lookup-insert k j v [] = refl
  lookup-insert k j v ((i, w) ∷ d) =
      ground (arith, eq_iff k j, eq_iff i k, eq_iff i j, lookup-insert k j v d)

  pub lookup-erase_ne :
      (k j : String) (d : Dict V) → (k == j) ≡ false → lookup j (erase k d) ≡ lookup j d
  unfolding lookup erase
  lookup-erase_ne k j [] h = refl
  lookup-erase_ne k j ((i, w) ∷ d) h =
      ground (arith, eq_iff k j, eq_iff i k, eq_iff i j, lookup-erase_ne k j d h)

  module _ (key : V → String) where
    -- Every key is there once, and is the key of its row.
    abbrev pub IsKeyed : Dict V → Type 0
    IsKeyed [] = Unit
    IsKeyed ((k, v) ∷ d) = (lookup k d ≡ none) × (key v ≡ k) × IsKeyed d

    pub insert-IsKeyed :
        (k : String) (v : V) (d : Dict V) → key v ≡ k → IsKeyed d → IsKeyed (insert k v d)
    unfolding lookup insert
    insert-IsKeyed k v [] e h = (refl, e, tt)
    insert-IsKeyed k v ((i, w) ∷ d) e h =
        ground (arith, eq_iff i k, eq_iff k i, lookup-insert k i v d, insert-IsKeyed k v d e h.2)

    pub erase-IsKeyed : (k : String) (d : Dict V) → IsKeyed d → IsKeyed (erase k d)
    unfolding lookup erase
    erase-IsKeyed k [] h = tt
    erase-IsKeyed k ((i, w) ∷ d) h =
        ground (arith, eq_iff i k, eq_iff k i, lookup-erase_ne k i d, erase-IsKeyed k d h.2)

    pub lookup-erase_self : (k : String) (d : Dict V) → IsKeyed d → lookup k (erase k d) ≡ none
    unfolding lookup erase
    lookup-erase_self k [] h = refl
    lookup-erase_self k ((i, w) ∷ d) h = ground (arith, eq_iff i k, lookup-erase_self k d h.2)

    pub lookup-key : (k : String) (v : V) (d : Dict V) → IsKeyed d → lookup k d ≡ some v → key v ≡ k
    unfolding lookup
    lookup-key k v [] h e = cc
    lookup-key k v ((i, w) ∷ d) h e = ground (arith, eq_iff i k, lookup-key k v d h.2)

    -- A value that stands in the dictionary is found under its key.
    pub lookup_of_Occurs :
        (v : V) (d : Dict V) → IsKeyed d → Occurs v (values d) → lookup (key v) d ≡ some v
    unfolding lookup values
    lookup_of_Occurs v [] h m = absurd m
    lookup_of_Occurs v ((i, w) ∷ d) h (inl e) = ground (arith, eq_iff i (key v))
    lookup_of_Occurs v ((i, w) ∷ d) h (inr m) =
        ground (arith, eq_iff i (key v), lookup_of_Occurs v d h.2 m)

  pub Occurs-of_lookup :
      (k : String) (v : V) (d : Dict V) → lookup k d ≡ some v → Occurs v (values d)
  unfolding lookup values
  Occurs-of_lookup k v [] e = cc
  Occurs-of_lookup k v ((i, w) ∷ d) e = ground (arith, Occurs-of_lookup k v d)
