-- ===== src/Records/Meaning.antt =====
-- store/record/erecord/filter.go: the texts that the builder writes mean what the filter asks.
use card_client.Prelude.{String, List, [], ◌∷◌, Bool, ◌&&◌, ◌||◌}
use card_client.Resource.Filters.{Mode, all, any}
use card_client.Records.Tables.{Tables}
use card_client.Records.Wording.{Wording}
use Prim.Native.String.{◌++◌ as append}

-- What a chain over a list asks.
abbrev folded :
    {A : Type 0} → (Bool → Bool → Bool) → (A → List String → Bool) → A → List A → List String → Bool
folded combine p a [] = p a
folded combine p a (b ∷ bs) = λ ts. combine (p a ts) (folded combine p b bs ts)

module _ (holds : String → String → List String → Bool) where
  -- What the part for one column asks, by the mode of the values.
  abbrev of_field : Mode → String → List String → String → List String → Bool
  of_field all v vs field = folded (λ x y. x && y) (holds field) v vs
  of_field any v vs field = folded (λ x y. x || y) (holds field) v vs
