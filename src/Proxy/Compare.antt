-- ===== src/Proxy/Compare.antt =====
-- src/proxy_task.cpp: cmpJudgeData, comTxtBody and recordCmpErrorRet. The verdict of comJsonBody on two
-- bodies, which Proxy.Json gives, and the text that jsoncpp writes of a difference are parameters; the
-- rewriting of `params`, which only that text shows, is left to the second.
pub mod Agree
use openstack_mimic_componen.Base.{
  ℕ, Bool, true, false, not, ◌&&◌, String, String_discrete, [], ◌∷◌, ◌++◌, Option, none, some,
  if◌then◌else◌, ite, ltb, ◌==◌, includes,
}
use openstack_mimic_componen.Map.{text_key, update}
use openstack_mimic_componen.Proxy.State.{JudgeData, Records}

-- What is asked of comJsonBody and of jsoncpp's writer.
pub record Comparer : Type 0 where
  pub com_json_body : String → String → ℕ
  pub error_detail : String → JudgeData → JudgeData → String

-- The two std::strings were made of C strings, so that strcmp sees all of them.
unfoldable pub com_txt_body : String → String → Bool
com_txt_body group_body com_body =
    ite (String_discrete group_body "") (ite (String_discrete com_body "") true false) (
      ite (String_discrete com_body "") false
        (ite (String_discrete group_body com_body) true false))

unfoldable pub json_reason : ℕ → Option String
json_reason code =
    if code == 100
    then none
    else if code == 0
    then some "BODYVALUE"
    else if code == 99
    then some "BODYRESOLUTION"
    else some "UNKOWN"

-- The comparison of two bodies of which the second is not empty.
unfoldable pub body_reason : Comparer → JudgeData → JudgeData → Option String
body_reason c group comparing =
    if includes comparing.content_type "json"
    then json_reason (c.com_json_body group.body comparing.body)
    else if com_txt_body group.body comparing.body
    then none
    else some "BODYVALUE"

-- Why an answer differs from that of a group; `none` when it is the same.
unfoldable pub error_reason : Comparer → JudgeData → JudgeData → Option String
error_reason c group comparing =
    if not (group.resp_status == comparing.resp_status)
    then some "HTTP_RESPONSESTATUS"
    else ite (String_discrete group.content_type comparing.content_type)
        (if (group.body_len == 0) && not (comparing.body_len == 0)
          then some "BODYLEN"
          else if ltb 0 group.body_len && (comparing.body_len == 0)
          then some "BODYLEN"
          else if ltb 0 comparing.body_len
          then body_reason c group comparing
          else none)
        (some "CONTENTTYPE")

unfoldable pub record_cmp_error_ret :
    JudgeData → JudgeData → (reason detail : String) → Records → Records
record_cmp_error_ret group comparing reason detail = update [] group.key (λ records.
    records
    ++ (record { judge_data_key = comparing.key; error_reason = reason; error_detail = detail }
        ∷ []))

-- Whether the answers agree, and the record of their difference.
unfoldable pub cmp_judge_data : Comparer → JudgeData → JudgeData → Records → Bool × Records
cmp_judge_data c group comparing records = elim (error_reason c group comparing) [
  | none ↦ (true, records)
  | some reason ↦ (
    false,
    record_cmp_error_ret group comparing reason (c.error_detail reason group comparing) records,
  )
]
