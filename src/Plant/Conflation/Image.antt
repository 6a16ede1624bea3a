-- ===== src/Plant/Conflation/Image.antt =====
-- The current values: the newest accepted tick of each instrument's field, and all of them in order.
use treble_tracker.Prelude.Bytes.Order.{text_le-total}
use treble_tracker.Prelude.{
  ◌≡◌, refl, ap, ◌∙◌, List, [], ◌∷◌, Option, some, Bool, true, false, arith, bytes_eq, pair_eq,
  if◌then◌else◌, map, ◌==◌, Bool-cases, inl, inr,
}
use treble_tracker.Prelude.Dict.{get, get-put}
use treble_tracker.Prelude.Bytes.{Bytes}
use mathlib.Core.List.{Permᴰ}
use mathlib.Core.List.Permᴰ
use treble_tracker.Plant.Tick.{Tick}
use treble_tracker.Plant.Conflation.{
  TickerPlant, Image, apply_tick, image, conflated, key_le, insert_entry, sort_entries,
}
use treble_tracker.Plant.Conflation.Stream.{
  publish_all, accepted, is_next, publish-taken, publish-refused,
}

module _ {F : Type 0} where
  abbrev pub is_of : Bytes → Bytes → Tick F → Bool
  is_of subject field t = ◌==◌ {K = Bytes × Bytes} (t.subject, t.field) (subject, field)

  -- The last tick of a key in a list, or what was there before.
  abbrev pub newest : Bytes → Bytes → Option (Tick F) → List (Tick F) → Option (Tick F)
  newest subject field o [] = o
  newest subject field o (t ∷ ts) =
      newest subject field (if is_of subject field t then some t else o) ts

  image-apply :
      (subject field : Bytes) (t : Tick F) (p : TickerPlant F)
      → image subject field (apply_tick t p)
        ≡ (if is_of subject field t then some t else image subject field p)
  unfolding image apply_tick
  image-apply subject field t p = get-put (t.subject, t.field) (subject, field) t p.latest

  -- After any feed, the image of an instrument's field is the newest accepted tick of it, or else what
  -- it was before.
  pub image_latest :
      (subject field : Bytes) (ts : List (Tick F)) (p : TickerPlant F)
      → image subject field (publish_all ts p)
        ≡ newest subject field (image subject field p) (accepted ts p)
  image_latest subject field [] p = refl
  image_latest subject field (t ∷ ts) p =
      elim (Bool-cases (is_next (get t.subject p.sequences) t)) [
        | inl next ↦
            rw (next, publish-taken t p next)
              (image_latest subject field ts (apply_tick t p)
                ∙ ap (λ o. newest subject field o (accepted ts (apply_tick t p)))
                    (image-apply subject field t p))
        | inr stale ↦ rw (stale, publish-refused t p stale) (image_latest subject field ts p)
      ]

key_le-total : (a b : Bytes × Bytes) → key_le a b ≡ false → key_le b a ≡ true
unfolding key_le
key_le-total (a, b) (c, d) h = ground (arith, h, text_le-total a c, text_le-total b d)

module _ {F : Type 0} where
  abbrev pub Above : Bytes × Bytes → Image F → Type 0
  Above k [] = Unit
  Above k (e ∷ es) = key_le k e.0 ≡ true

  -- The keys stand in order.
  abbrev pub Sorted : Image F → Type 0
  Sorted [] = Unit
  Sorted (e ∷ es) = Above e.0 es × Sorted es

  Above-insert :
      (k : Bytes × Bytes) (e : (Bytes × Bytes) × Tick F) (es : Image F)
      → key_le k e.0 ≡ true
      → Above k es
      → Above k (insert_entry e es)
  unfolding insert_entry
  Above-insert k e [] le h = le
  Above-insert k e (f ∷ es) le h =
      elim (key_le e.0 f.0) as (λ b. Above k (if b then e ∷ f ∷ es else f ∷ insert_entry e es)) [
        | true ↦ le
        | false ↦ h
      ]

  insert-Sorted :
      (e : (Bytes × Bytes) × Tick F) (es : Image F) → Sorted es → Sorted (insert_entry e es)
  unfolding insert_entry
  insert-Sorted e [] h = (tt, tt)
  insert-Sorted e (f ∷ es) h = elim (Bool-cases (key_le e.0 f.0)) [
    | inl le ↦ rw le (le, h)
    | inr gt ↦ rw gt (Above-insert f.0 e es (key_le-total e.0 f.0 gt) h.0, insert-Sorted e es h.1)
  ]

  insert-Perm : (e : (Bytes × Bytes) × Tick F) (es : Image F) → Permᴰ (insert_entry e es) (e ∷ es)
  unfolding insert_entry
  insert-Perm e [] = Permᴰ.refl (e ∷ [])
  insert-Perm e (f ∷ es) =
      elim (key_le e.0 f.0)
        as (λ b. Permᴰ (if b then e ∷ f ∷ es else f ∷ insert_entry e es) (e ∷ f ∷ es)) [
          | true ↦ Permᴰ.refl (e ∷ f ∷ es)
          | false ↦ Permᴰ.trans (Permᴰ.cons refl (insert-Perm e es)) (Permᴰ.swap refl refl)
        ]

  sort-Sorted : (es : Image F) → Sorted (sort_entries es)
  unfolding sort_entries
  sort-Sorted [] = tt
  sort-Sorted (e ∷ es) = insert-Sorted e (sort_entries es) (sort-Sorted es)

  sort-Perm : (es : Image F) → Permᴰ (sort_entries es) es
  unfolding sort_entries
  sort-Perm [] = Permᴰ.nil
  sort-Perm (e ∷ es) =
      Permᴰ.trans (insert-Perm e (sort_entries es)) (Permᴰ.cons refl (sort-Perm es))

  -- The conflated view has the tick of every entry of the image once, in the order of the keys.
  pub conflated_in_order :
      (p : TickerPlant F)
      → (es : Image F) × (conflated p ≡ map (λ e. e.1) es) × Sorted es × Permᴰ es p.latest
  unfolding conflated
  conflated_in_order p = (sort_entries p.latest, refl, sort-Sorted p.latest, sort-Perm p.latest)
