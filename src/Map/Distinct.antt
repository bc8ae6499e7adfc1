-- ===== src/Map/Distinct.antt =====
-- No map holds a key twice; sizes, and the entries seen as a list.
use openstack_mimic_componen.Base.{◌≡◌, refl, true, [], ◌∷◌, none, if◌then◌else◌, arith, ◌+◌, ◌-◌}
use openstack_mimic_componen.Map.{Key, Map, find, has, place, emplace, adjust, update, erase, size}
use openstack_mimic_componen.Map.Laws.{find-place_ne}

module _ {ℓ} {K V : Type ℓ} ⦃o : Key K⦄ where
  abbrev pub Distinct : Map K V → Type ℓ
  Distinct [] = Unit
  Distinct ((k, v) ∷ m) = (find k m ≡ none) × Distinct m

  pub place-Distinct :
      (k : K) (v : V) (m : Map K V) → find k m ≡ none → Distinct m → Distinct (place k v m)
  unfolding find place
  place-Distinct k v [] h d = ground arith
  place-Distinct k v ((j, w) ∷ m) h d = ground (arith, place-Distinct k v m, find-place_ne k j v m)

  pub emplace-Distinct : (k : K) (v : V) (m : Map K V) → Distinct m → Distinct (emplace k v m)
  unfolding emplace
  emplace-Distinct k v m d = ground (arith, place-Distinct k v m)

  find-adjust-none :
      (k j : K) (f : V → V) (m : Map K V) → find j m ≡ none → find j (adjust k f m) ≡ none
  unfolding find adjust
  find-adjust-none k j f [] h = refl
  find-adjust-none k j f ((i, w) ∷ m) h = ground (arith, find-adjust-none k j f m)

  pub adjust-Distinct : (k : K) (f : V → V) (m : Map K V) → Distinct m → Distinct (adjust k f m)
  unfolding adjust
  adjust-Distinct k f [] d = d
  adjust-Distinct k f ((j, w) ∷ m) d =
      ground (arith, adjust-Distinct k f m, find-adjust-none k j f m)

  pub update-Distinct :
      (e : V) (k : K) (f : V → V) (m : Map K V) → Distinct m → Distinct (update e k f m)
  unfolding update
  update-Distinct e k f m d = adjust-Distinct k f (emplace k e m) (emplace-Distinct k e m d)

  find-erase-none : (k j : K) (m : Map K V) → find j m ≡ none → find j (erase k m) ≡ none
  unfolding find erase
  find-erase-none k j [] h = refl
  find-erase-none k j ((i, w) ∷ m) h = ground (arith, find-erase-none k j m)

  pub erase-Distinct : (k : K) (m : Map K V) → Distinct m → Distinct (erase k m)
  unfolding erase
  erase-Distinct k [] d = d
  erase-Distinct k ((j, w) ∷ m) d = ground (arith, erase-Distinct k m, find-erase-none k j m)

  pub find-erase_self : (k : K) (m : Map K V) → Distinct m → find k (erase k m) ≡ none
  unfolding find erase
  find-erase_self k [] d = refl
  find-erase_self k ((j, w) ∷ m) d = ground (arith, find-erase_self k m)

  size-place : (k : K) (v : V) (m : Map K V) → size (place k v m) ≡ size m + 1
  unfolding place
  size-place k v [] = omega arith
  size-place k v ((j, w) ∷ m) = ground (arith, size-place k v m)

  pub size-emplace :
      (k : K) (v : V) (m : Map K V)
      → size (emplace k v m) ≡ (if has k m then size m else size m + 1)
  unfolding emplace
  size-emplace k v m = ground (arith, size-place k v m)

  pub size-adjust : (k : K) (f : V → V) (m : Map K V) → size (adjust k f m) ≡ size m
  unfolding adjust
  size-adjust k f [] = refl
  size-adjust k f ((j, w) ∷ m) = ground (arith, size-adjust k f m)

  pub size-erase :
      (k : K) (m : Map K V) → size (erase k m) ≡ (if has k m then size m - 1 else size m)
  unfolding find erase
  size-erase k [] = refl
  size-erase k ((j, w) ∷ []) = ground arith
  size-erase k ((j, w) ∷ e ∷ m) = ground (arith, size-erase k (e ∷ m))

  pub size-update_present :
      (d : V) (k : K) (f : V → V) (m : Map K V) → has k m ≡ true → size (update d k f m) ≡ size m
  unfolding update emplace
  size-update_present d k f m h = rw h (size-adjust k f m)
