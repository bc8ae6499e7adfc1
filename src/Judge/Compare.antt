-- ===== src/Judge/Compare.antt =====
-- src/judge_task.cpp: cmpJudgeData. comTxtBody and the verdicts of comJsonBody are those of
-- src/proxy_task.cpp; the comparison of two JSON bodies and the text that jsoncpp writes of a
-- difference are parameters.
use openstack_mimic_componen.Base.{
  ℕ, Bool, true, false, not, ◌&&◌, String, String_discrete, [], ◌∷◌, ◌++◌, Option, none, some,
  if◌then◌else◌, ite, ltb, ◌==◌, ◌+s◌, includes,
}
use openstack_mimic_componen.Map.{text_key, update}
use openstack_mimic_componen.Proxy.State.{Records}
use openstack_mimic_componen.Proxy.Compare.{com_txt_body, json_reason}
use openstack_mimic_componen.Judge.State.{Request}

pub record Comparer : Type 0 where
  pub com_json_body : String → String → ℕ
  pub error_detail : String → Request → Request → String

-- A request that the timer made is told by its body.
unfoldable pub with_timeout : String → Request → String
with_timeout reason comparing =
    if includes comparing.body "Gateway" then reason +s "&GATEWAY_TIMEOUT" else reason

-- The comparison of two bodies of which the second is not empty.
unfoldable pub body_reason : Comparer → Request → Request → Option String
body_reason c group comparing =
    if includes comparing.content_type "json"
    then json_reason (c.com_json_body group.body comparing.body)
    else if com_txt_body group.body comparing.body
    then none
    else some "BODYVALUE"

-- Why a request differs from that of a group; `none` when it is the same.
unfoldable pub error_reason : Comparer → Request → Request → Option String
error_reason c group comparing =
    if not (group.method == comparing.method)
    then some (with_timeout "HTTP_METHOD" comparing)
    else ite (String_discrete group.urlfull comparing.urlfull)
        (ite (String_discrete group.content_type comparing.content_type)
          (if (group.body_len == 0) && not (comparing.body_len == 0)
            then some "BODYLEN"
            else if ltb 0 group.body_len && (comparing.body_len == 0)
            then some "BODYLEN"
            else if ltb 0 comparing.body_len
            then body_reason c group comparing
            else none)
          (some "CONTENTTYPE"))
        (some (with_timeout "URL" comparing))

unfoldable pub record_cmp_error_ret :
    Request → Request → (reason detail : String) → Records → Records
record_cmp_error_ret group comparing reason detail = update [] group.key (λ records.
    records
    ++ (record { judge_data_key = comparing.key; error_reason = reason; error_detail = detail }
        ∷ []))

-- Whether the requests agree, and the record of their difference.
unfoldable pub cmp_judge_data : Comparer → Request → Request → Records → Bool × Records
cmp_judge_data c group comparing records = elim (error_reason c group comparing) [
  | none ↦ (true, records)
  | some reason ↦ (
    false,
    record_cmp_error_ret group comparing reason (c.error_detail reason group comparing) records,
  )
]
