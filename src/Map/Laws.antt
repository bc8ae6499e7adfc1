-- ===== src/Map/Laws.antt =====
-- What `find` reads after each operation of a map.
use openstack_mimic_componen.Base.{◌≡◌, refl, ◌≢◌, true, [], ◌∷◌, none, some, ite, arith}
use openstack_mimic_componen.Map.{Key, Map, find, has, place, emplace, adjust, at, update, erase}
use mathlib.Core.Option

module _ {ℓ} {K V : Type ℓ} ⦃o : Key K⦄ where
  pub find-place_self :
      (k : K) (v : V) (m : Map K V) → find k m ≡ none → find k (place k v m) ≡ some v
  unfolding find place
  find-place_self k v [] h = ground arith
  find-place_self k v ((j, w) ∷ m) h = ground (arith, find-place_self k v m)

  pub find-place_ne : (k j : K) (v : V) (m : Map K V) → k ≢ j → find j (place k v m) ≡ find j m
  unfolding find place
  find-place_ne k j v [] h = ground arith
  find-place_ne k j v ((i, w) ∷ m) h = ground (arith, find-place_ne k j v m)

  -- `find` after `emplace`: the old value wins.
  pub find-emplace :
      (k j : K) (v : V) (m : Map K V)
      → find j (emplace k v m) ≡ ite (o.dec k j) (some (at v k m)) (find j m)
  unfolding emplace at
  find-emplace k j v m = ground (arith, find-place_self k v m, find-place_ne k j v m)

  pub find-adjust :
      (k j : K) (f : V → V) (m : Map K V)
      → find j (adjust k f m) ≡ ite (o.dec k j) (Option.map f (find j m)) (find j m)
  unfolding find adjust
  find-adjust k j f [] = ground arith
  find-adjust k j f ((i, w) ∷ m) = ground (arith, find-adjust k j f m)

  pub find-update :
      (d : V) (k j : K) (f : V → V) (m : Map K V)
      → find j (update d k f m) ≡ ite (o.dec k j) (some (f (at d k m))) (find j m)
  unfolding update
  find-update d k j f m = ground (arith, find-adjust k j f (emplace k d m), find-emplace k j d m)

  pub find-erase_ne : (k j : K) (m : Map K V) → k ≢ j → find j (erase k m) ≡ find j m
  unfolding find erase
  find-erase_ne k j [] h = refl
  find-erase_ne k j ((i, w) ∷ m) h = ground (arith, find-erase_ne k j m)

  pub at-some : (d : V) (k : K) (m : Map K V) {v : V} → find k m ≡ some v → at d k m ≡ v
  unfolding at
  at-some d k m h = ground arith

  adjust_same : (k : K) (m : Map K V) → adjust k (λ v. v) m ≡ m
  unfolding adjust
  adjust_same k [] = refl
  adjust_same k ((j, v) ∷ m) = ground (arith, adjust_same k m)

  -- Reading `m[k]` at a key that is there changes nothing.
  pub update_same : (d : V) (k : K) (m : Map K V) → has k m ≡ true → update d k (λ v. v) m ≡ m
  unfolding update emplace
  update_same d k m h = rw h (adjust_same k m)

  pub find-at : (d : V) (k : K) (m : Map K V) → has k m ≡ true → find k m ≡ some (at d k m)
  unfolding at
  find-at d k m h = ground arith
