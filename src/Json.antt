-- ===== src/Json.antt =====
-- The JSON values that the program reads through `map[string]any`: job parameters and document
-- metadata. Numbers are integers, as those of the requests are. An object is the list of its
-- members, and a key is looked up at its first place.
use bytefetch.Prelude.{
  Text, Option, none, some, List, [], ◌∷◌, ◌≡◌, refl, arith, Bool, same, same_iff, if◌then◌else◌,
}
use bytefetch.Prelude.{filter, not, Bool-cases, inl, inr}
use bytefetch.Int.{ℤ}

mutual
  pub data Json : Type 0 where
    null : Json
    bool : Bool → Json
    num : ℤ → Json
    str : Text → Json
    arr : Elems → Json
    obj : Members → Json

  pub data Elems : Type 0 where
    nil : Elems
    cons : Json → Elems → Elems

  pub data Members : Type 0 where
    end : Members
    member : Text → Json → Members → Members

abbrev pub Object : Type 0
Object = List (Text × Json)

-- A Go map with strings as its keys: the list of its entries, in the order of an iteration over it.
module _ {A : Type 0} where
  unfoldable pub lookup : Text → List (Text × A) → Option A
  lookup k [] = none
  lookup k ((j, v) ∷ m) = if same j k then some v else lookup k m

  -- `m[k] = v`
  unfoldable pub insert : Text → A → List (Text × A) → List (Text × A)
  insert k v [] = (k, v) ∷ []
  insert k v ((j, w) ∷ m) = if same j k then (k, v) ∷ m else (j, w) ∷ insert k v m

  -- `delete(m, k)`
  unfoldable pub delete : Text → List (Text × A) → List (Text × A)
  delete k m = filter (λ p. not (same p.0 k)) m

  pub lookup-insert :
      (k j : Text) (v : A) (m : List (Text × A))
      → lookup j (insert k v m) ≡ (if same k j then some v else lookup j m)
  unfolding lookup insert
  lookup-insert k j v [] = refl
  lookup-insert k j v ((i, w) ∷ m) =
      ground (arith, same_iff k j, same_iff i k, same_iff i j, lookup-insert k j v m)

  pub lookup-delete : (k : Text) (m : List (Text × A)) → lookup k (delete k m) ≡ none
  unfolding lookup delete
  lookup-delete k [] = refl
  lookup-delete k ((j, w) ∷ m) = elim (Bool-cases (same j k)) [
    | inl e ↦ rw e (lookup-delete k m)
    | inr e ↦ rw (e, e) (lookup-delete k m)
  ]
