-- ===== src/Proxy/Json/Bodies.antt =====
-- src/proxy_task.cpp: when comJsonBody takes two bodies for the same.
use openstack_mimic_componen.Base.{
  ℕ, suc, ◌≤◌, ◌≡◌, refl, sym, subst, ap, ◌∙◌, Bool, true, false, ◌&&◌, String, List, [], ◌∷◌,
  Option, none, some, if_cases, length, ◌==◌, text_lt, arith, ==_iff,
}
use Prim.Native.String.{compare}
use Prim.Native.Nat.{Ordering}
use text.Mathlib.TextEquality.{path_by_compare}
use text.Mathlib.TextPositions.{compare_refl}
use mathlib.Core.List.{Permᴰ}
use mathlib.Core.List.Permᴰ
use openstack_mimic_componen.Proxy.Json.{
  Json, insert_text, sort_texts, skip_to, set_difference, is_empty, compare_flat, JsonReader,
  flatten, com_json_body,
}

abbrev Texts : Type 0
Texts = List String

insert_text-Permᴰ : (s : String) (l : Texts) → Permᴰ (insert_text s l) (s ∷ l)
unfolding insert_text
insert_text-Permᴰ s [] = Permᴰ.refl (s ∷ [])
insert_text-Permᴰ s (t ∷ l) =
    if_cases (λ (m : Texts). Permᴰ m (s ∷ t ∷ l)) (text_lt t s)
      (λ _. Permᴰ.trans (Permᴰ.cons refl (insert_text-Permᴰ s l)) (Permᴰ.swap refl refl))
      λ _. Permᴰ.refl (s ∷ t ∷ l)

sort_texts-Permᴰ : (l : Texts) → Permᴰ (sort_texts l) l
unfolding sort_texts
sort_texts-Permᴰ [] = Permᴰ.nil
sort_texts-Permᴰ (s ∷ l) =
    Permᴰ.trans (insert_text-Permᴰ s (sort_texts l)) (Permᴰ.cons refl (sort_texts-Permᴰ l))

length-insert_text : (s : String) (l : Texts) → length (insert_text s l) ≡ suc (length l)
unfolding insert_text
length-insert_text s [] = refl
length-insert_text s (t ∷ l) =
    if_cases (λ (m : Texts). length m ≡ suc (suc (length l))) (text_lt t s)
      (λ _. ap suc (length-insert_text s l)) (λ _. refl)

length-sort_texts : (l : Texts) → length (sort_texts l) ≡ length l
unfolding sort_texts
length-sort_texts [] = refl
length-sort_texts (s ∷ l) = length-insert_text s (sort_texts l) ∙ ap suc (length-sort_texts l)

no_text : (l : Texts) → length l ≡ 0 → l ≡ []
no_text [] e = refl
no_text (s ∷ l) e = absurd (omega (arith, e))

both_true : (a b : Bool) → (a && b) ≡ true → (a ≡ true) × (b ≡ true)
both_true true b e = (refl, e)
both_true false b e = cc

not_100 : ◌≡◌ {A = ℕ} 0 100 → ⊥
not_100 e = omega (arith, e)

not_99 : ◌≡◌ {A = ℕ} 99 100 → ⊥
not_99 e = omega (arith, e)

-- What an empty difference says: the second list is as long, and equal if it is no longer.
record Covered (l m : Texts) : Type 0 where
  as_long : length l ≤ length m
  equal : length l ≡ length m → l ≡ m

-- A search that leaves nothing, when the rest of it is covered.
skip_to-Covered :
    (s : String) (l : Texts) (rest : Texts → Texts)
    → ((m : Texts) → rest m ≡ [] → Covered l m)
    → (m : Texts) → skip_to s rest m ≡ []
    → Covered (s ∷ l) m
unfolding skip_to
skip_to-Covered s l rest k [] e = cc
skip_to-Covered s l rest k (t ∷ m) e = at_order (compare s t) refl e (skip_to-Covered s l rest k m)
  where
    at_order :
        (o : Ordering)
        → compare s t ≡ o
        → elim o as (λ _. Texts) [
          | Ordering.lt ↦ s ∷ rest (t ∷ m)
          | Ordering.eq ↦ rest m
          | Ordering.gt ↦ skip_to s rest m
        ]
          ≡ []
        → (skip_to s rest m ≡ [] → Covered (s ∷ l) m)
        → Covered (s ∷ l) (t ∷ m)
    at_order Ordering.lt o e skip = cc
    at_order Ordering.eq o e skip =
        let c = k m e in
        record {
          as_long = omega (arith, c.as_long);
          equal = λ n.
              ap (◌∷◌ s) (c.equal (omega (arith, n))) ∙ ap (λ x. x ∷ m) (path_by_compare s t o);
        }
    at_order Ordering.gt o e skip =
        let c = skip e in
        record {
          as_long = omega (arith, c.as_long);
          equal = λ n. absurd (omega (arith, n, c.as_long));
        }

set_difference-Covered : (l m : Texts) → set_difference l m ≡ [] → Covered l m
unfolding set_difference
set_difference-Covered [] m e = record {
  as_long = omega arith;
  equal = λ n. sym (no_text m (sym n));
}
set_difference-Covered (s ∷ l) m e =
    skip_to-Covered s l (set_difference l) (set_difference-Covered l) m e

-- Two lists of texts that the verdict takes for the same are permutations of each other.
compare_flat-Permᴰ : (l m : Texts) → compare_flat l m ≡ 100 → Permᴰ l m
unfolding compare_flat
compare_flat-Permᴰ l m =
    if_cases (λ n. n ≡ 100 → Permᴰ l m)
      ((length l == length m)
        && is_empty (set_difference (sort_texts l) (sort_texts m))
        && is_empty (set_difference (sort_texts m) (sort_texts l)))
      (λ same _.
        let front =
          both_true
            ((length l == length m) && is_empty (set_difference (sort_texts l) (sort_texts m))) _
            same in
        let (long, first) =
          both_true (length l == length m) (is_empty (set_difference (sort_texts l) (sort_texts m)))
            front.0 in
        let none_left =
          no_text (set_difference (sort_texts l) (sort_texts m)) ((==_iff _ _).0 first) in
        let covered = set_difference-Covered (sort_texts l) (sort_texts m) none_left in
        let equal =
          covered.equal (length-sort_texts l ∙ (==_iff _ _).0 long ∙ sym (length-sort_texts m)) in
        Permᴰ.trans (Permᴰ.symm (sort_texts-Permᴰ l))
          (subst (λ k. Permᴰ k m) (sym equal) (sort_texts-Permᴰ m)))
      (λ _ e. absurd (not_100 e))

difference_self : (l : Texts) → set_difference l l ≡ []
unfolding set_difference skip_to
difference_self [] = refl
difference_self (s ∷ l) = rw (compare_refl s, skip_to) (difference_self l)

compare_flat_same : (l : Texts) → compare_flat l l ≡ 100
unfolding compare_flat
compare_flat_same l =
    let itself : (length l == length l) ≡ true = ground arith in
    rw (difference_self (sort_texts l)) (rw itself refl)

-- comJsonBody takes two bodies for the same only when jsoncpp reads both, and the lists that flatJson
-- makes of them, empty for a bare scalar, are the same up to order.
pub com_json_body-Permᴰ :
    (r : JsonReader) (group_body com_body : String)
    → com_json_body r group_body com_body ≡ 100
    → (g : Json) × (c : Json) × (r.parse group_body ≡ some g)
      × (r.parse com_body ≡ some c)
      × Permᴰ (flatten r g) (flatten r c)
unfolding com_json_body
com_json_body-Permᴰ r group_body com_body h =
    read_both (r.parse group_body) (r.parse com_body) refl refl h
  where
    read_both :
        (o p : Option Json)
        → r.parse group_body ≡ o
        → r.parse com_body ≡ p
        → elim o as (λ _. ℕ) [
          | none ↦ 99
          | some g ↦ elim p as (λ _. ℕ) [
            | none ↦ 99
            | some c ↦ compare_flat (flatten r g) (flatten r c)
          ]
        ]
          ≡ 100
        → (g : Json) × (c : Json) × (r.parse group_body ≡ some g)
          × (r.parse com_body ≡ some c)
          × Permᴰ (flatten r g) (flatten r c)
    read_both none p a b e = absurd (not_99 e)
    read_both (some g) none a b e = absurd (not_99 e)
    read_both (some g) (some c) a b e =
        (g, c, a, b, compare_flat-Permᴰ (flatten r g) (flatten r c) e)

-- comJsonBody takes every body that jsoncpp reads for the same as itself.
pub com_json_body_same :
    (r : JsonReader) (body : String) (j : Json)
    → r.parse body ≡ some j
    → com_json_body r body body ≡ 100
unfolding com_json_body
com_json_body_same r body j h = rw (h, com_json_body, h) (compare_flat_same (flatten r j))
