-- ===== src/Proxy/Compare/Agree.antt =====
-- src/proxy_task.cpp: what two answers that cmpJudgeData takes for the same have in common.
use openstack_mimic_componen.Base.{
  ℕ, ◌<◌, ◌≡◌, ◌⊎◌, inl, inr, Bool, true, false, not, ◌&&◌, String, String_discrete, Option, none,
  some, if_cases, ite_cases, ltb, ◌==◌, includes, arith, refl,
}
use openstack_mimic_componen.Proxy.State.{JudgeData, Records}
use openstack_mimic_componen.Proxy.Compare.{
  Comparer, error_reason, body_reason, json_reason, com_txt_body, cmp_judge_data,
  record_cmp_error_ret,
}

-- Both bodies are empty, or both are not and have been compared: by comJsonBody, when the content type
-- is that of JSON, and else as texts.
abbrev pub SameBodies : Comparer → JudgeData → JudgeData → Type 0
SameBodies c group d =
    ((group.body_len ≡ 0) × (d.body_len ≡ 0))
    ⊎ ((0 < group.body_len)
        × (0 < d.body_len)
        × ((c.com_json_body group.body d.body ≡ 100) ⊎ (group.body ≡ d.body)))

abbrev pub Agree : Comparer → JudgeData → JudgeData → Type 0
Agree c group d =
    (group.resp_status ≡ d.resp_status)
    × (group.content_type ≡ d.content_type)
    × SameBodies c group d

json_reason-none : (code : ℕ) → json_reason code ≡ none → code ≡ 100
unfolding json_reason
json_reason-none code h = ground (arith, h)

com_txt_body_equal : (a b : String) → com_txt_body a b ≡ true → a ≡ b
unfolding com_txt_body
com_txt_body_equal a b h = ground (arith, h)

body_reason-none :
    (c : Comparer) (group d : JudgeData)
    → body_reason c group d ≡ none
    → (c.com_json_body group.body d.body ≡ 100) ⊎ (group.body ≡ d.body)
unfolding body_reason
body_reason-none c group d =
    if_cases (λ o. o ≡ none → (c.com_json_body group.body d.body ≡ 100) ⊎ (group.body ≡ d.body))
      (includes d.content_type "json") (λ _ h. inl (json_reason-none _ h))
      λ _.
        if_cases
          (λ (o : Option String).
            o ≡ none → (c.com_json_body group.body d.body ≡ 100) ⊎ (group.body ≡ d.body))
          (com_txt_body group.body d.body)
          (λ same _. inr (com_txt_body_equal group.body d.body same)) (λ _ h. cc)

error_reason-Agree :
    (c : Comparer) (group d : JudgeData) → error_reason c group d ≡ none → Agree c group d
unfolding error_reason
error_reason-Agree c group d =
    if_cases (λ o. o ≡ none → Agree c group d) (not (group.resp_status == d.resp_status))
      (λ _ h. cc)
      λ status.
        ite_cases (λ o. o ≡ none → Agree c group d)
          (String_discrete group.content_type d.content_type)
          (λ same.
            if_cases (λ o. o ≡ none → Agree c group d)
              ((group.body_len == 0) && not (d.body_len == 0)) (λ _ h. cc)
              λ first.
                if_cases (λ o. o ≡ none → Agree c group d)
                  (ltb 0 group.body_len && (d.body_len == 0)) (λ _ h. cc)
                  λ second.
                    if_cases (λ (o : Option String). o ≡ none → Agree c group d) (ltb 0 d.body_len)
                      (λ long h. (
                        ground (arith, status),
                        same,
                        inr (
                          ground (arith, first, long),
                          ground (arith, long),
                          body_reason-none c group d h,
                        ),
                      ))
                      (λ short _. (
                        ground (arith, status),
                        same,
                        inl (ground (arith, second, short), ground (arith, short)),
                      )))
          (λ _ h. cc)

-- Two answers that cmpJudgeData takes for the same have the same status and the same content type, and
-- their bodies are both empty, or both not empty and the same for comJsonBody or as texts.
pub cmp_judge_data-Agree :
    (c : Comparer) (group d : JudgeData) (records : Records)
    → (cmp_judge_data c group d records).0 ≡ true
    → Agree c group d
unfolding cmp_judge_data
cmp_judge_data-Agree c group d records h =
    error_reason-Agree c group d (no_reason (error_reason c group d) refl h)
  where
    no_reason :
        (o : Option String)
        → error_reason c group d ≡ o
        → (elim o as (λ _. Bool × Records) [
          | none ↦ (true, records)
          | some reason ↦
              (false, record_cmp_error_ret group d reason (c.error_detail reason group d) records)
        ]).0
          ≡ true
        → error_reason c group d ≡ none
    no_reason none e k = e
    no_reason (some reason) e k = cc
