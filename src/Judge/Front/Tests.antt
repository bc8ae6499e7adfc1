-- ===== src/Judge/Front/Tests.antt =====
-- A client of the judge of horizon, on which the theorems about src/mimic_judge.cpp are applied.
use openstack_mimic_componen.Base.{
  ◌<◌, ℕ, ◌≤◌, ◌≡◌, ◌↔◌, refl, true, false, String, List, [], ◌∷◌, Option, none, some, arith,
}
use openstack_mimic_componen.Base.Int.{ℤ, pos, rem_ℤ}
use openstack_mimic_componen.Judge.Front.Meanwhile.{Meanwhile}
use openstack_mimic_componen.Map.{text_key, number_key, find}
use openstack_mimic_componen.Map.Distinct.{Distinct}
use openstack_mimic_componen.Judge.State.{BackendResp}
use openstack_mimic_componen.Judge.Front.{
  Client, Front, Server, is_controller, init_judge_data, all_req_callback, reply_to_front,
  req_finish_cb, thread_index, int_max, next_sn,
}
use openstack_mimic_componen.Judge.Front.Numbers.{all_req_callback_bound}
use openstack_mimic_componen.Judge.Front.Threads.{sum, codes_of, thread_index-sum}
use openstack_mimic_componen.Judge.Front.Checks.{reply_to_front-locked}

abbrev test_client : Client
test_client = record {
  req = 3;
  is_open = true;
  headers =
      ("Mimic-Host", "e1")
      ∷ ("Req-Info", "i")
      ∷ ("Server-Array", "a")
      ∷ ("backend", "http://b/")
      ∷ ("msgid", "m")
      ∷ ("sid", "s")
      ∷ [];
  path = some "/v3";
  method = 0;
  body = none;
  body_len = 0;
}

abbrev gone_client : Client
gone_client = record test_client { is_open = false }

abbrev test_front : Front
test_front = record {
  service_name = "judge_horizon";
  sn = 2147483647;
  front_req_list = (5, gone_client) ∷ [];
  locked = false;
  sendings = [];
}

abbrev test_array : String → Option (List Server)
test_array s = some (some "e0" ∷ some "e1" ∷ none ∷ [])

abbrev test_resp : BackendResp
test_resp = record { headers = ("mimic-sn", "0") ∷ []; status = 200; body = "ok"; body_len = 2 }

abbrev test_sid : List ℤ
test_sid = pos 97 ∷ pos 45 ∷ pos 98 ∷ []

all_req_callback_bound_example :
    (all_req_callback test_array (λ s. 3) 1 9 4 true test_sid test_client test_front).sn ≤ int_max
all_req_callback_bound_example =
    all_req_callback_bound test_array (λ s. 3) 1 9 4 true test_sid test_client test_front
      (omega arith)

abbrev after_request : Front
after_request = init_judge_data 1 9 3 4 true test_sid test_client test_front

-- The request of the other client ends before the answer comes.
abbrev before_reply : Front
before_reply = req_finish_cb (some 5) after_request

abbrev after_reply : Front
after_reply = reply_to_front test_resp (next_sn test_front.sn) before_reply

abbrev test_answer : Front
test_answer = all_req_callback test_array (λ s. 3) 1 9 4 true test_sid test_client test_front

-- "a-b" goes to thread 240 % 4, although the dash stands after "a".
thread_index-sum_example :
    (thread_index 4 test_sid ≡ rem_ℤ (sum test_sid) 4)
    × ((ascii : List ℕ)
        → test_sid ≡ codes_of ascii
        → 0 < 4
        → (i : ℕ) × (thread_index 4 test_sid ≡ pos i) × (i < 4))
thread_index-sum_example = thread_index-sum 4 test_sid

reply_to_front-locked_example : ((reply_to_front test_resp 5 test_front).locked ≡ true) ↔ (
    (is_controller test_front ≡ false)
    × ((c : Client) × (find 5 test_front.front_req_list ≡ some c) × (c.is_open ≡ false)))
reply_to_front-locked_example = reply_to_front-locked test_resp 5 test_front refl
