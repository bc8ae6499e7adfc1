-- ===== src/Map.antt =====
-- std::map as the program uses it: an association list in the order of the keys, its operations
-- (`find`, `emplace`, `operator[]`, `erase`, `size`) and, in the children, their laws.
pub mod Laws
pub mod Distinct
pub mod Order
use openstack_mimic_componen.Base.{
  ℕ, Bool, List, [], ◌∷◌, map, Option, none, some, ite, String, String_discrete, text_lt,
  if◌then◌else◌, is_some, ltb, length, ℕ_discrete,
}

-- What a map asks of its keys.
pub record Key {ℓ} (K : Type ℓ) : Type ℓ where
  pub dec : Discrete K
  pub less : K → K → Bool

instance abbrev pub text_key : Key String
text_key = record { dec = String_discrete; less = text_lt }

instance abbrev pub number_key : Key ℕ
number_key = record { dec = ℕ_discrete; less = ltb }

abbrev pub Map {ℓ} : Type ℓ → Type ℓ → Type ℓ
Map K V = List (K × V)

module _ {ℓ} {K V : Type ℓ} where
  abbrev pub keys : Map K V → List K
  keys = map (λ e. e.0)

  abbrev pub values : Map K V → List V
  values = map (λ e. e.1)

  abbrev pub size : Map K V → ℕ
  size = length

module _ {ℓ} {K V : Type ℓ} ⦃o : Key K⦄ where
  unfoldable pub find : K → Map K V → Option V
  find k [] = none
  find k ((j, v) ∷ m) = ite (o.dec k j) (some v) (find k m)

  -- `m.find(k) != m.end()`
  abbrev pub has : K → Map K V → Bool
  has k m = is_some (find k m)

  -- A new key goes before the first larger one.
  unfoldable pub place : K → V → Map K V → Map K V
  place k v [] = (k, v) ∷ []
  place k v ((j, w) ∷ m) =
      let rest = place k v m in if o.less k j then (k, v) ∷ (j, w) ∷ m else (j, w) ∷ rest

  -- `emplace` and `insert` leave a key that is there alone.
  unfoldable pub emplace : K → V → Map K V → Map K V
  emplace k v m = if has k m then m else place k v m

  unfoldable pub adjust : K → (V → V) → Map K V → Map K V
  adjust k f [] = []
  adjust k f ((j, v) ∷ m) = ite (o.dec k j) ((j, f v) ∷ m) ((j, v) ∷ adjust k f m)

  -- `m[k]` as an rvalue: a missing key reads the default `d`.
  unfoldable pub at : V → K → Map K V → V
  at d k m = elim (find k m) [ none ↦ d | some v ↦ v ]

  -- `f(m[k])` for an update in place: `m[k]` first makes a missing key with the default `d`.
  unfoldable pub update : V → K → (V → V) → Map K V → Map K V
  update d k f m = adjust k f (emplace k d m)

  unfoldable pub erase : K → Map K V → Map K V
  erase k [] = []
  erase k ((j, v) ∷ m) = ite (o.dec k j) m ((j, v) ∷ erase k m)
