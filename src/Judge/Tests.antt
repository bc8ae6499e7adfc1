-- ===== src/Judge/Tests.antt =====
-- A task of the judge with two servers, on which the theorems about src/judge_task.cpp are applied.
use openstack_mimic_componen.Base.{
  ℕ, ◌+◌, ◌≤◌, ◌≡◌, refl, subst, sym, true, false, String, List, [], ◌∷◌, none, some, length, arith,
  String_discrete, to_string,
}
use openstack_mimic_componen.Map.{text_key, size, at, find, emplace, place}
use openstack_mimic_componen.Schedule.State.{Policys}
use openstack_mimic_componen.Suber.{Suber, init_bool_flag}
use openstack_mimic_componen.Judge.State.{Request, null_request, Running}
use openstack_mimic_componen.Judge.Decide.{is_timeout, judge_data}
use openstack_mimic_componen.Judge.Analyse.{Env, sent}
use openstack_mimic_componen.Judge.Respond.{
  response_to_frond_req, send_to_backend, send_if, send_result, request_horizon,
}
use openstack_mimic_componen.Judge.Respond.Frame.{sends}
use openstack_mimic_componen.Judge.Process.{
  judge_timeout_cb, process_judge_data, after_judging, judge_and_send, add_request,
}
use openstack_mimic_componen.Judge.Thread.{
  is_refused, admit, init_task_from_fist_req, add_servers, add_server,
}
use openstack_mimic_componen.Judge.Life.{
  request, Reach, here, next, fresh, IsPolite, Asks, backend_called_once, judge_result-Genuine,
  requests_bounded, timer_completes,
}
use openstack_mimic_componen.Judge.Heard.{replies-marked, admit-is_refused}
use openstack_mimic_componen.Judge.Respond.Replies.{replies}
use openstack_mimic_componen.Judge.Respond.Marks.{marked}
use openstack_mimic_componen.Judge.Protocol.{Moves, view, fresh-Moves}
use openstack_mimic_componen.Judge.Timeout.{NoTwice}

abbrev test_policys : Policys
test_policys = record {
  judge_rule = "time";
  judge_error_count = "3";
  schedule_interval = "60";
  schedule_rule = "random";
  mimic_switch = "on";
}

abbrev test_suber : Suber
test_suber = record {
  flags = init_bool_flag "judge_horizon";
  is_init = false;
  policys = test_policys;
  all_exec_list = [];
  active_exec_list = [];
  restarts = [];
}

abbrev test_env : Env
test_env = record {
  comparer = record { com_json_body = λ a b. 100; error_detail = λ r a b. r };
  flags = init_bool_flag "judge_horizon";
  service_name = "judge_horizon";
  error_count = 3;
  split = λ s. none;
  random = λ s. 0;
  backend = λ d. sent;
}

abbrev test_servers : String → List String
test_servers s = "e1" ∷ "e2" ∷ []

abbrev test_request : ℕ → String → Request
test_request n host = record null_request {
  ptr = n;
  sid = "s";
  replyfd = 7;
  sn = n;
  exec_num = 2;
  urlfull = "/v3";
  req_headers = ("Mimic-Host", host) ∷ ("backend", "http://b/") ∷ [];
  key = "s-e";
  exec_addr = host;
}

abbrev born : Running
born = fresh test_servers test_suber (test_request 11 "e1")

after_one : Running
after_one = admit test_env (test_request 11 "e1") born

asked : Reach born after_one
unfolding is_refused init_task_from_fist_req add_servers add_server String_discrete at find admit
    after_one
asked = next here (request test_env (test_request 11 "e1") born refl refl)

joins : is_refused (test_request 12 "e2") after_one.task ≡ false
unfolding is_refused after_one admit process_judge_data after_judging response_to_frond_req
    judge_and_send judge_data add_request emplace find init_task_from_fist_req add_servers
    add_server place String_discrete at
joins = refl

listed_one : after_one.listed ≡ true
unfolding after_one admit process_judge_data after_judging response_to_frond_req judge_and_send
    judge_data add_request emplace find init_task_from_fist_req add_servers add_server place
listed_one = refl

two_asked : Reach born (admit test_env (test_request 12 "e2") after_one)
unfolding after_one
two_asked = next asked (request test_env (test_request 12 "e2") after_one listed_one joins)

polite : IsPolite two_asked
unfolding two_asked asked IsPolite Asks is_timeout
polite = ((tt, refl), refl)

backend_called_once_example : sends (admit test_env (test_request 12 "e2") after_one).calls ≤ 1
backend_called_once_example =
    backend_called_once test_servers test_suber (test_request 11 "e1") refl two_asked polite

abbrev after_two : Running
after_two = admit test_env (test_request 12 "e2") after_one

-- The only executor of a task.
abbrev alone : Request
alone = record (test_request 11 "e1") { exec_num = 1 }

abbrev one_server : String → List String
one_server s = "e1" ∷ []

abbrev keyed_alone : Request
keyed_alone = record alone { key = "s-e-1" }

abbrev born_alone : Running
born_alone = fresh one_server test_suber alone

alone_asked : Reach born_alone (admit test_env alone born_alone)
unfolding is_refused init_task_from_fist_req add_servers add_server String_discrete at find
alone_asked = next here (request test_env alone born_alone refl refl)

alone-IsPolite : IsPolite alone_asked
unfolding alone_asked IsPolite Asks is_timeout
alone-IsPolite = (tt, refl)

decided : (admit test_env alone born_alone).task.judge_result ≡ some keyed_alone
unfolding admit process_judge_data after_judging response_to_frond_req judge_and_send judge_data
    add_request emplace find init_task_from_fist_req add_servers add_server place send_to_backend
    send_if send_result at String_discrete request_horizon init_bool_flag to_string
decided = refl

judge_result-Genuine_example : is_timeout keyed_alone ≡ false
judge_result-Genuine_example =
    judge_result-Genuine one_server test_suber alone refl alone_asked alone-IsPolite keyed_alone
      decided

requests_bounded_example :
    (size after_two.task.judge_data_list ≤ length after_two.task.server_array)
    × (after_two.task.judge_num_ctr ≡ size after_two.task.judge_data_list)
requests_bounded_example =
    requests_bounded test_servers test_suber (test_request 11 "e1") refl two_asked polite

one-IsPolite : IsPolite asked
unfolding asked IsPolite Asks is_timeout
one-IsPolite = (tt, refl)

one_size : size after_one.task.judge_data_list ≡ 1
unfolding after_one admit process_judge_data after_judging response_to_frond_req judge_and_send
    judge_data add_request emplace find init_task_from_fist_req add_servers add_server place
one_size = refl

one_servers : after_one.task.server_array ≡ "e1" ∷ "e2" ∷ []
unfolding after_one admit process_judge_data after_judging response_to_frond_req judge_and_send
    judge_data add_request emplace find init_task_from_fist_req add_servers add_server place
one_servers = refl

born_NoTwice : NoTwice after_one.task.server_array
unfolding String_discrete
born_NoTwice = subst NoTwice (sym one_servers) (refl, (refl, tt))

timer_completes_example :
    (judge_timeout_cb test_env (λ n. n + 100) after_one).task.judge_num_ctr
    ≡ length after_one.task.server_array
timer_completes_example =
    timer_completes test_servers test_suber (test_request 11 "e1") refl asked one-IsPolite test_env
      (λ n. n + 100) (omega (arith, one_size)) born_NoTwice

replies-marked_example :
    replies (admit test_env (test_request 12 "e2") after_one).calls
    ≡ marked (admit test_env (test_request 12 "e2") after_one).task.resp_is_ok
replies-marked_example = replies-marked test_servers test_suber (test_request 11 "e1") two_asked

admit-is_refused_example : is_refused (test_request 13 "e1") after_two.task ≡ true
unfolding after_one is_refused
admit-is_refused_example =
    admit-is_refused test_env (test_request 11 "e1") (test_request 13 "e1") born
      (next here (request test_env (test_request 12 "e2") after_one listed_one joins)) refl

fresh-Moves_example : Moves (view born) (view after_two)
fresh-Moves_example =
    fresh-Moves test_servers test_suber (test_request 11 "e1") refl two_asked polite
