-- ===== src/Judge/Respond/Marks.antt =====
-- src/judge_task.cpp: `respIsOk`, the executors that have their answer.
use openstack_mimic_componen.Base.{
  ℕ, suc, ◌+◌, ◌≡◌, ◌≢◌, refl, false≢true, ap, ◌∙◌, Bool, true, false, String, String_discrete, [],
  ◌∷◌, some, ite, if_cases, arith, inl, inr, Option-cases,
}
use openstack_mimic_componen.Map.{Map, text_key, has, find, place, emplace, adjust, update}
use openstack_mimic_componen.Map.Laws.{find-place_self, find-update, find-emplace}
use openstack_mimic_componen.Judge.Respond.{is_ok}

-- How many executors have their answer.
unfoldable pub marked : Map String String → ℕ
marked [] = 0
marked ((k, v) ∷ m) = ite (String_discrete v "ok") (suc (marked m)) (marked m)

marked-place : (h v : String) (m : Map String String) → v ≢ "ok" → marked (place h v m) ≡ marked m
unfolding marked place
marked-place h v [] n = ground arith
marked-place h v ((k, w) ∷ m) n = ground (arith, marked-place h v m)

marked-adjust :
    (h v : String) (m : Map String String)
    → find h m ≡ some v
    → v ≢ "ok"
    → marked (adjust h (λ _. "ok") m) ≡ marked m + 1
unfolding marked adjust find
marked-adjust h v [] e n = ground arith
marked-adjust h v ((k, w) ∷ m) e n = ground (arith, marked-adjust h v m)

abbrev is_ok_text : String → Bool
is_ok_text v = ite (String_discrete v "ok") true false

other_texts : (◌≢◌ {A = String} "no" "ok") × (◌≢◌ {A = String} "" "ok")
unfolding String_discrete
other_texts = (λ e. false≢true (ap is_ok_text e), λ e. false≢true (ap is_ok_text e))

-- A new executor has no answer yet.
pub marked-emplace_no : (h : String) (m : Map String String) → marked (emplace h "no" m) ≡ marked m
unfolding emplace
marked-emplace_no h m =
    if_cases (λ u. marked u ≡ marked m) (has h m) (λ _. refl)
      (λ _. marked-place h "no" m other_texts.0)

not_ok : (h v : String) (m : Map String String) → is_ok h m ≡ false → find h m ≡ some v → v ≢ "ok"
unfolding is_ok
not_ok h v m n e = ground arith

-- The answer marks its executor.
pub marked-update :
    (h : String) (m : Map String String)
    → is_ok h m ≡ false
    → marked (update "" h (λ _. "ok") m) ≡ marked m + 1
unfolding update emplace
marked-update h m n = elim (Option-cases (find h m)) [
  | inl e ↦ rw e (
      marked-adjust h "" (place h "" m) (find-place_self h "" m e) other_texts.1
      ∙ ap (λ n. n + 1) (marked-place h "" m other_texts.1))
  | inr (v, e) ↦ rw e (marked-adjust h v m e (not_ok h v m n e))
]

pub has-update :
    (h k : String) (m : Map String String)
    → has k m ≡ true
    → has k (update "" h (λ _. "ok") m) ≡ true
has-update h k m e = ground (arith, find-update "" h k (λ _. "ok") m)

pub has-emplace :
    (h k v : String) (m : Map String String) → has k m ≡ true → has k (emplace h v m) ≡ true
has-emplace h k v m e = ground (arith, find-emplace h k v m)
