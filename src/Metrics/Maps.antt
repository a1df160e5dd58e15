-- ===== src/Metrics/Maps.antt =====
-- The `HashMap<String, V>` of src/metrics.rs as a list of keys with their values. The order in which a
-- map is read is that of the list.
use mathlib.Core.Option
use stratum_bee.Base.{
  if◌then◌else◌, Bool-cases, Text, text_eq, text_eq→eq, text_eq_refl, ◌≡◌, inl, inr, false, Option,
  none, some, List, [], ◌∷◌, arith,
}

module _ {V : Type 0} where
  -- `map.get(key)`
  unfoldable pub lookup : Text → List (Text × V) → Option V
  lookup key [] = none
  lookup key ((k, v) ∷ entries) = if text_eq k key then some v else lookup key entries

  -- `*map.entry(key).or_insert_with(|| fresh)` changed by `f`.
  unfoldable pub update_entry : Text → V → (V → V) → List (Text × V) → List (Text × V)
  update_entry key fresh f [] = (key, f fresh) ∷ []
  update_entry key fresh f ((k, v) ∷ entries) =
      if text_eq k key then (k, f v) ∷ entries else (k, v) ∷ update_entry key fresh f entries

  -- `map.remove(key)`
  unfoldable pub remove : Text → List (Text × V) → List (Text × V)
  remove key [] = []
  remove key ((k, v) ∷ entries) = if text_eq k key then entries else (k, v) ∷ remove key entries

  pub lookup-update_entry :
      (key : Text) (fresh : V) (f : V → V) (entries : List (Text × V))
      → lookup key (update_entry key fresh f entries)
        ≡ some (f (Option.get_or (lookup key entries) fresh))
  unfolding lookup update_entry
  lookup-update_entry key fresh f [] = rw (text_eq_refl key)
  lookup-update_entry key fresh f ((k, v) ∷ entries) =
      ground (arith, lookup-update_entry key fresh f entries)

  pub lookup-update_entry_other :
      (key other : Text) (fresh : V) (f : V → V) (entries : List (Text × V))
      → text_eq key other ≡ false
      → lookup other (update_entry key fresh f entries) ≡ lookup other entries
  unfolding lookup update_entry
  lookup-update_entry_other key other fresh f [] h = rw h
  lookup-update_entry_other key other fresh f ((k, v) ∷ entries) h =
      elim (Bool-cases (text_eq k key)) [
        | inl same ↦ ground (arith, text_eq→eq k key)
        | inr e ↦ ground (arith, lookup-update_entry_other key other fresh f entries h)
      ]
