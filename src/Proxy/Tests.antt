-- ===== src/Proxy/Tests.antt =====
-- A task with three executors, of which two answer alike, on which the theorems about
-- src/proxy_task.cpp are applied.
use openstack_mimic_componen.Base.{
  Option, false, ℕ_discrete, ℕ, ◌+◌, ◌≡◌, refl, true, String, String_discrete, List, [], ◌∷◌, none,
  some, arith, is_some, find?,
}
use openstack_mimic_componen.Map.{text_key, number_key, has, find, values, at, emplace}
use openstack_mimic_componen.Proxy.State.{JudgeData, null_data, Group, Task}
use openstack_mimic_componen.Proxy.Compare.{Comparer}
use openstack_mimic_componen.Proxy.Judge.{
  pick_fewest, pick_among, least, judge_data, time_or_weight_judge, majority, from_exec,
}
use openstack_mimic_componen.Proxy.Compare.{cmp_judge_data, error_reason, body_reason, com_txt_body}
use openstack_mimic_componen.Proxy.Compare.Agree.{Agree, cmp_judge_data-Agree}
use openstack_mimic_componen.Proxy.Analyse.{Service, take_answer}
use openstack_mimic_componen.Proxy.Analyse.Replies.{replies, take_answer-replies}
use openstack_mimic_componen.Schedule.State.{Executor, default_executor, addr_of}
use openstack_mimic_componen.Util.{nova_to_cinder}
use openstack_mimic_componen.Suber.{Flags, received, convert_to_cincer_or_neutron}
use openstack_mimic_componen.Proxy.Convert.{convert_from_cincer_or_neutron}
use openstack_mimic_componen.Proxy.Convert.Back.{convert_from_cincer_or_neutron-received}
use openstack_mimic_componen.Proxy.Judge.Once.{judge_data_once, judge_data_decides}
use openstack_mimic_componen.Proxy.Judge.Rules.{
  Found, majority_group, majority-some, majority_decisive, all_keys,
}
use openstack_mimic_componen.Proxy.Judge.Total.{HasAnswers, time_or_weight_judge_total}
use openstack_mimic_componen.Proxy.Judge.Places.{Placed, grouped, judge_data-grouped}
use openstack_mimic_componen.Proxy.Analyse.Counts.{after_errors, Divides, after_errors-Divides}

abbrev test_answer : ℕ → String → String → ℕ → String → JudgeData
test_answer ptr key addr status body = record null_data {
  ptr = ptr;
  key = key;
  exec_addr = addr;
  resp_status = status;
  content_type = "text/html";
  body = body;
  body_len = 2;
}

abbrev one : JudgeData
one = test_answer 11 "s-e1-1" "e1" 200 "ab"

abbrev two : JudgeData
two = test_answer 12 "s-e2-2" "e2" 200 "cd"

abbrev three : JudgeData
three = test_answer 13 "s-e3-3" "e3" 404 "ab"

abbrev test_comparer : Comparer
test_comparer = record { com_json_body = λ a b. 100; error_detail = λ r a b. r }

-- All three have answered, and the last answer has not been judged.
abbrev waiting : Task
waiting = record {
  sid = "s";
  urlfull = "/v3";
  params = "";
  httpmethod = "GET";
  addr_list = "e1" ∷ "e2" ∷ "e3" ∷ [];
  judge_rule = "weight";
  failcount_list = ("e1", 2) ∷ ("e2", 1) ∷ ("e3", 1) ∷ [];
  uptimelist = ("e1", 30) ∷ ("e2", 20) ∷ ("e3", 10) ∷ [];
  judge_data_list = ("s-e1-1", one) ∷ ("s-e2-2", two) ∷ ("s-e3-3", three) ∷ [];
  judge_group = (11, (one, "s-e1-1" ∷ [])) ∷ (12, (two, "s-e2-2" ∷ [])) ∷ [];
  judge_result = none;
  ret_group_key = "";
  judge_type = "";
  cmp_ret_record = [];
  analyse_error_detail = [];
}

abbrev answered : Task
answered = record waiting { judge_result = some one }

judge_data_once_example :
    ((judge_data test_comparer 5 "s-e3-3" answered).0 ≡ 0)
    × ((judge_data test_comparer 5 "s-e3-3" answered).1.judge_result ≡ some one)
judge_data_once_example =
    judge_data_once test_comparer 5 "s-e3-3" answered one (λ e. omega (arith, e)) refl

judge_data_decides_example :
    ((judge_data test_comparer 5 "s-e3-3" waiting).0 ≡ 1)
    × (is_some (judge_data test_comparer 5 "s-e3-3" waiting).1.judge_result ≡ true)
unfolding time_or_weight_judge pick_fewest pick_among least emplace at find String_discrete
judge_data_decides_example =
    judge_data_decides test_comparer 5 "s-e3-3" waiting (omega arith) refl refl refl

has_three :
    (addr : String) → has addr waiting.failcount_list ≡ true → has addr waiting.uptimelist ≡ true
unfolding find
has_three addr h = ground arith

answers_three :
    (addr : String)
    → has addr waiting.uptimelist ≡ true
    → is_some (find? (from_exec addr) (values waiting.judge_data_list)) ≡ true
unfolding find
answers_three addr h = ground arith

waiting-HasAnswers : HasAnswers waiting
waiting-HasAnswers = record {
  some_uptime = omega arith;
  some_failcount = omega arith;
  enough = omega arith;
  timed = has_three;
  answered = answers_three;
}

time_or_weight_judge_total_example : is_some (time_or_weight_judge 5 waiting) ≡ true
time_or_weight_judge_total_example = time_or_weight_judge_total 5 waiting waiting-HasAnswers

judge_data-grouped_example :
    Placed test_comparer three "s-e3-3" waiting.judge_group
      (judge_data test_comparer 5 "s-e3-3" waiting).1.judge_group
    × (grouped (judge_data test_comparer 5 "s-e3-3" waiting).1.judge_group
        ≡ grouped waiting.judge_group + 1)
unfolding at find String_discrete ℕ_discrete
judge_data-grouped_example =
    judge_data-grouped test_comparer 5 "s-e3-3" waiting (λ e. omega (arith, e))
      (λ e. absurd (omega (arith, e))) refl

-- Two of three in the first group.
abbrev test_groups : List Group
test_groups = (one, "s-e1-1" ∷ "s-e2-2" ∷ []) ∷ (three, "s-e3-3" ∷ []) ∷ []

majority_group_example : Found 3 3 test_groups test_groups one
unfolding majority
majority_group_example = majority_group 3 3 test_groups test_groups one refl

after_errors-Divides_example : Divides 3 6 (after_errors 3 6)
after_errors-Divides_example = after_errors-Divides 3 5 (omega arith)

majority-some_example : is_some (majority 3 2 test_groups test_groups) ≡ true
majority-some_example =
    majority-some 3 2 test_groups test_groups 0 (one, "s-e1-1" ∷ "s-e2-2" ∷ []) refl (omega arith)
      (λ e. omega (arith, e))

majority_decisive_example : majority 3 2 test_groups test_groups ≡ some one
majority_decisive_example =
    majority_decisive 1 2 test_groups test_groups 0 (one, "s-e1-1" ∷ "s-e2-2" ∷ [])
      (unfold all_keys in omega arith) refl (omega arith) (λ e. omega (arith, e))

abbrev alike : JudgeData
alike = test_answer 14 "s-e4-4" "e4" 200 "ab"

cmp_judge_data-Agree_example : Agree test_comparer one alike
unfolding cmp_judge_data error_reason body_reason com_txt_body String_discrete
cmp_judge_data-Agree_example = cmp_judge_data-Agree test_comparer one alike [] refl

abbrev test_service : Service
test_service = record { task = answered; judge_err_num = []; judge_error_count = 3; calls = [] }

take_answer-replies_example :
    replies (take_answer test_comparer (λ a. a) 5 alike test_service).calls
    ≡ replies test_service.calls
take_answer-replies_example =
    take_answer-replies test_comparer (λ a. a) 5 alike one test_service (λ e. omega (arith, e)) refl

abbrev nova_exec : Executor
nova_exec = record default_executor { ip = "10.0.0.1"; port = 18774 }

abbrev cinder_flags : Flags
cinder_flags = record {
  is_horizon = false;
  is_controller = true;
  is_keystone = false;
  is_schedule = false;
  is_proxy = true;
  is_nova = false;
  is_cinder = true;
  is_neutron = false;
  should_be_convert = true;
}

abbrev test_split : String → Option (String × ℕ)
test_split addr = some ("10.0.0.1", 18776)

convert_from_cincer_or_neutron-received_example :
    convert_from_cincer_or_neutron test_split true false (addr_of (received cinder_flags nova_exec))
    ≡ addr_of nova_exec
unfolding received convert_to_cincer_or_neutron nova_to_cinder
convert_from_cincer_or_neutron-received_example =
    convert_from_cincer_or_neutron-received test_split cinder_flags nova_exec false refl refl refl
      (λ e. omega (arith, e)) refl
