-- ===== src/Prelude/Dict.antt =====
-- A Python dict, in insertion order. A write to a key that is there keeps its place.
use treble_tracker.Prelude.Tests.{if◌then◌else◌}
use treble_tracker.Prelude.Equality.{Eq, ◌==◌, eqb_refl}
use mathlib.Core.Path.{◌≡◌, refl}
use mathlib.Core.Logic.{◌≢◌}
use mathlib.Core.Option.{Option, none, some}
use mathlib.Core.List.{List, [], ◌∷◌}
use native.Mathlib.Omega.{arith}

abbrev pub Dict : Type 0 → Type 0 → Type 0
Dict K V = List (K × V)

module _ {K V : Type 0} ⦃e : Eq K⦄ where
  -- `d.get(k)`
  unfoldable pub get : K → Dict K V → Option V
  get k [] = none
  get k ((j, v) ∷ d) = if j == k then some v else get k d

  -- `d[k] = v`
  unfoldable pub put : K → V → Dict K V → Dict K V
  put k v [] = (k, v) ∷ []
  put k v ((j, w) ∷ d) = if j == k then (j, v) ∷ d else (j, w) ∷ put k v d

  -- `del d[k]`, `d.pop(k, None)`
  unfoldable pub erase : K → Dict K V → Dict K V
  erase k [] = []
  erase k ((j, w) ∷ d) = if j == k then d else (j, w) ∷ erase k d

  -- No key stands twice: a property of every dict, which the list does not give for nothing.
  abbrev pub IsDict : Dict K V → Type 0
  IsDict [] = Unit
  IsDict ((k, v) ∷ d) = (get k d ≡ none) × IsDict d

  pub get-put :
      (k j : K) (v : V) (d : Dict K V) → get j (put k v d) ≡ (if k == j then some v else get j d)
  unfolding get put
  get-put k j v [] = refl
  get-put k j v ((i, w) ∷ d) =
      ground (arith, e.same_iff k j, e.same_iff i k, e.same_iff i j, get-put k j v d)

  pub get-put_self : (k : K) (v : V) (d : Dict K V) → get k (put k v d) ≡ some v
  get-put_self k v d = simp (get-put, eqb_refl)

  pub get-put_ne : (k j : K) (v : V) (d : Dict K V) → k ≢ j → get j (put k v d) ≡ get j d
  get-put_ne k j v d h = ground (arith, get-put k j v d, e.same_iff k j)

  pub get-erase_self : (k : K) (d : Dict K V) → IsDict d → get k (erase k d) ≡ none
  unfolding get erase
  get-erase_self k [] h = refl
  get-erase_self k ((i, w) ∷ d) h = ground (arith, e.same_iff i k, get-erase_self k d h.1)

  pub get-erase_ne : (k j : K) (d : Dict K V) → k ≢ j → get j (erase k d) ≡ get j d
  unfolding get erase
  get-erase_ne k j [] h = refl
  get-erase_ne k j ((i, w) ∷ d) h =
      ground (arith, e.same_iff i k, e.same_iff i j, e.same_iff k j, get-erase_ne k j d h)

  pub put-IsDict : (k : K) (v : V) (d : Dict K V) → IsDict d → IsDict (put k v d)
  unfolding get put
  put-IsDict k v [] h = (refl, tt)
  put-IsDict k v ((i, w) ∷ d) h =
      ground (arith, e.same_iff i k, e.same_iff k i, get-put k i v d, put-IsDict k v d h.1)

  pub erase-IsDict : (k : K) (d : Dict K V) → IsDict d → IsDict (erase k d)
  unfolding get erase
  erase-IsDict k [] h = tt
  erase-IsDict k ((i, w) ∷ d) h =
      ground (arith, e.same_iff i k, e.same_iff k i, get-erase_ne k i d, erase-IsDict k d h.1)
