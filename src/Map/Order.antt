-- ===== src/Map/Order.antt =====
-- Entries of a map as a list.
use openstack_mimic_componen.Base.{◌≡◌, [], ◌∷◌, some, arith, All}
use openstack_mimic_componen.Map.{Key, Map, find}
use openstack_mimic_componen.Map.Distinct.{Distinct}

module _ {ℓ} {K V : Type ℓ} ⦃o : Key K⦄ where
  -- What holds of every binding that `find` reads holds of every entry, when no key comes twice.
  pub All-find {ℓ'} :
      (P : K → V → Type ℓ') (m : Map K V)
      → Distinct m
      → ((k : K) (v : V) → find k m ≡ some v → P k v)
      → All (λ e. P e.0 e.1) m
  unfolding find
  All-find P [] d h = tt
  All-find P ((j, w) ∷ m) d h =
      (h j w (ground arith), All-find P m d.1 λ k v e. h k v (ground arith))
