-- ===== src/Judge/Front/Numbers.antt =====
-- src/mimic_judge.cpp: the numbers of the requests, and the way of an answer back to its client.
use openstack_mimic_componen.Base.{
  ◌∷◌, ◌==◌, if◌then◌else◌, ℕ, ◌+◌, ◌≤◌, ◌≡◌, ◌≢◌, refl, Bool, true, false, not, String, List,
  Option, some, if_cases, arith, includes,
}
use openstack_mimic_componen.Base.Int.{ℤ}
use openstack_mimic_componen.Map.{text_key, number_key, has, at, find, erase}
use openstack_mimic_componen.Map.Distinct.{Distinct}
use openstack_mimic_componen.Judge.State.{BackendResp}
use openstack_mimic_componen.Judge.Front.Meanwhile.{Meanwhile}
use openstack_mimic_componen.Judge.Front.{
  Sending, answered, resumed, Client, Front, Server, int_max, is_controller, is_horizon,
  resp_to_front_no_judge_error, check_req_headers, check_mimic_host_and_server_array, next_sn,
  keep_client, pause_if, init_judge_data, all_req_callback,
}

next_sn_bound : (sn : ℕ) → sn ≤ int_max → next_sn sn + 1 ≤ int_max
unfolding next_sn
next_sn_bound sn h = ground arith

resp_to_front_no_judge_error-sn :
    (c : Client) (f : Front) → (resp_to_front_no_judge_error c f).sn ≡ f.sn
unfolding resp_to_front_no_judge_error
resp_to_front_no_judge_error-sn c f =
    if_cases (λ (g : Front). g.sn ≡ f.sn) (is_controller f) (λ _. refl) (λ _. refl)

pause_if-sn : (b : Bool) (c : Client) (f : Front) → (pause_if b c f).sn ≡ f.sn
pause_if-sn true c f = refl
pause_if-sn false c f = refl

abbrev InRange : Front → Type 0
InRange f = f.sn ≤ int_max

init_judge_data-InRange :
    (ptr replyfd exec_num threads : ℕ) (written : Bool) (codes : List ℤ) (c : Client) (f : Front)
    → InRange f
    → InRange (init_judge_data ptr replyfd exec_num threads written codes c f)
unfolding init_judge_data keep_client
init_judge_data-InRange ptr replyfd exec_num threads written codes c f h =
    let kept = pause_if (is_horizon f) c (keep_client c f) in
    let small = next_sn_bound f.sn h in
    let same = pause_if-sn (is_horizon f) c (keep_client c f) in
    if_cases InRange written (λ _. omega (arith, small, same))
      (λ _. omega (
        arith,
        small,
        same,
        resp_to_front_no_judge_error-sn c
            (record kept { front_req_list = erase (next_sn f.sn) kept.front_req_list }),
      ))

-- The counter of requests stays within an int, whatever a client sends: the one more request that is
-- numbered never takes it past INT_MAX.
pub all_req_callback_bound :
    (servers : String → Option (List Server)) (size : String → ℕ) (ptr replyfd threads : ℕ)
    (written : Bool) (codes : List ℤ) (c : Client) (f : Front)
    → f.sn ≤ int_max
    → (all_req_callback servers size ptr replyfd threads written codes c f).sn ≤ int_max
unfolding all_req_callback
all_req_callback_bound servers size ptr replyfd threads written codes c f h =
    let array = at "" "Server-Array" c.headers in
    let refused : InRange (resp_to_front_no_judge_error c f) =
      omega (arith, resp_to_front_no_judge_error-sn c f) in
    if_cases InRange (not (has "sid" c.headers)) (λ _. refused)
      (λ _.
        if_cases InRange (not (check_req_headers c.headers)) (λ _. refused)
          (λ _.
            if_cases InRange
              (not
                (check_mimic_host_and_server_array (servers array) (at "" "Mimic-Host" c.headers)))
              (λ _. refused)
              (λ _. init_judge_data-InRange ptr replyfd (size array) threads written codes c f h)))

-- What init_judge_data leaves in the list.
abbrev Kept : ℕ → Client → Front → Front → Type 0
Kept sn c f g =
    (find sn g.front_req_list ≡ some c)
    × Distinct g.front_req_list
    × (g.service_name ≡ f.service_name)
    × ((j : ℕ) → j ≢ sn → find j g.front_req_list ≡ find j f.front_req_list)

-- What is sent with an answer of the backend, newest first: the answer, and a client of horizon is
-- woken up.
abbrev pub with_answer : BackendResp → Client → Front → List Sending
with_answer resp c g =
    let told =
      answered c.req resp.headers (if resp.body_len == 0 then "" else resp.body) resp.status
      ∷ g.sendings in
    if includes g.service_name "horizon" then resumed c.req ∷ told else told
