-- ===== src/Judge/Life.antt =====
-- src/mimic_jthread.cpp and src/judge_task.cpp: the life of a JudgeTask, from the first request, as
-- steps in any order: a request that doJudge does not turn away, the timer, which runs from the first
-- request on, and the answers of the backend.
use openstack_mimic_componen.Base.{
  ℕ, ◌+◌, ◌≤◌, ◌<◌, ◌≡◌, refl, sym, subst, inl, true, false, String, List, [], ◌∷◌, Option, none,
  some, length, length-append, arith,
}
use openstack_mimic_componen.Base.Text.Numbers.{last_number-dash}
use openstack_mimic_componen.Map.{Map, text_key, size, at}
use openstack_mimic_componen.Suber.{Suber}
use openstack_mimic_componen.Judge.State.{Request, BackendResp, Task, Running}
use openstack_mimic_componen.Judge.Decide.{is_timeout}
use openstack_mimic_componen.Judge.Decide.Once.{Genuine}
use openstack_mimic_componen.Judge.Analyse.{Env}
use openstack_mimic_componen.Judge.Respond.{backend_resp_cb, backend_resp_err_cb}
use openstack_mimic_componen.Judge.Respond.Frame.{
  sends, backend_resp_cb-Quiet, backend_resp_err_cb-Quiet,
}
use openstack_mimic_componen.Judge.Process.{judge_timeout_cb}
use openstack_mimic_componen.Judge.Thread.{
  new_task, add_server, add_servers, init_task_from_fist_req, is_refused, joined, keyed, admit,
}
use openstack_mimic_componen.Judge.Sound.{IsSound, Sound, AllGenuine, results, Quiet-IsSound}
use openstack_mimic_componen.Judge.Sound.Process.{process_judge_data-Sound}
use openstack_mimic_componen.Judge.Timeout.{
  NoTwice, judge_timeout_cb-Sound, judge_timeout_cb_completes,
}

-- What the base of events may do next with a task that is in the list of its thread.
pub data Step : Running → Running → Type 0 where
  request :
      (env : Env) (d : Request) (r : Running)
      → r.listed ≡ true
      → is_refused d r.task ≡ false
      → Step r (admit env d r)
  timer :
      (env : Env) (ptr : ℕ → ℕ) (r : Running)
      → r.listed ≡ true
      → 0 < size r.task.judge_data_list
      → Step r (judge_timeout_cb env ptr r)
  answer :
      (env : Env) (resp : BackendResp) (r : Running)
      → r.listed ≡ true
      → Step r (backend_resp_cb env resp r)
  failure :
      (env : Env) (resp : BackendResp) (r : Running)
      → r.listed ≡ true
      → Step r (backend_resp_err_cb env resp r)

-- The task that the first request of a sid makes.
abbrev pub fresh : (servers : String → List String) → Suber → Request → Running
fresh servers suber d = record {
  task = init_task_from_fist_req servers suber d.req_headers (new_task d.sid d.exec_num);
  listed = true;
  judge_err_num = [];
  calls = [];
}

pub data Reach (r : Running) : Running → Type 0 where
  here : Reach r r
  next : {u v : Running} → Reach r u → Step u v → Reach r v

-- Whether the request of a step came from an executor, and not with the URL of the timer.
unfoldable pub Asks : {r u : Running} → Step r u → Type 0
Asks (request env d r _ _) = Genuine d
Asks (timer env ptr r _ _) = Unit
Asks (answer env resp r _) = Unit
Asks (failure env resp r _) = Unit

-- No executor asks for the URL of the timer.
unfoldable pub IsPolite : {r u : Running} → Reach r u → Type 0
IsPolite here = Unit
IsPolite (next path step) = IsPolite path × Asks step

admit-Sound :
    (env : Env) (d : Request) (r : Running)
    → is_refused d r.task ≡ false
    → Genuine d
    → Sound r
    → Sound (admit env d r)
unfolding admit is_refused is_timeout
admit-Sound env d r h g s =
    process_judge_data-Sound env (keyed d r.task) (keyed d r.task).key
      (record r { task = joined d r.task }) s (ground (arith, h, s.bounded))
      (last_number-dash d.key (size r.task.judge_data_list + 1)) (inl g)

pub Step-Sound : {r u : Running} (step : Step r u) → Asks step → Sound r → Sound u
unfolding Asks
Step-Sound (request env d r _ h) g s = admit-Sound env d r h g s
Step-Sound (timer env ptr r _ h) g s = judge_timeout_cb-Sound env ptr r s h
Step-Sound (answer env resp r _) g s =
    Quiet-IsSound 0 r (backend_resp_cb env resp r) (backend_resp_cb-Quiet env resp r) s
Step-Sound (failure env resp r _) g s =
    Quiet-IsSound 0 r (backend_resp_err_cb env resp r) (backend_resp_err_cb-Quiet env resp r) s

pub Reach-Sound : {r u : Running} → Sound r → (path : Reach r u) → IsPolite path → Sound u
unfolding IsPolite
Reach-Sound s here p = s
Reach-Sound s (next path step) p = Step-Sound step p.1 (Reach-Sound s path p.0)

abbrev SameButServers : Task → List String → Task → Type 0
SameButServers t l u =
    (length u.server_array ≡ length t.server_array + length l)
    × (u.exec_num ≡ t.exec_num)
    × (u.judge_num_ctr ≡ t.judge_num_ctr)
    × (u.judge_result ≡ t.judge_result)
    × (u.judge_data_list ≡ t.judge_data_list)

add_servers_lem : (s : Suber) (l : List String) (t : Task) → SameButServers t l (add_servers s l t)
unfolding add_servers add_server
add_servers_lem s [] t = (omega arith, refl, refl, refl, refl)
add_servers_lem s (a ∷ l) t =
    let (n, e, c, r, d) = add_servers_lem s l (add_server s a t) in
    (omega (arith, n, length-append t.server_array (a ∷ [])), e, c, r, d)

at_most_one : (o : Option Request) (n : ℕ) → n ≤ results o → n ≤ 1
at_most_one none n h = omega arith
at_most_one (some d) n h = h

empty-IsSound :
    (n : ℕ) (servers : List String) (c : ℕ) (first result : Option Request) (l : Map String Request)
    → n ≡ length servers
    → c ≡ 0
    → result ≡ none
    → l ≡ []
    → IsSound 0 (n, servers, c, first, result, l) 0
empty-IsSound n servers c first result l e zero no_result empty =
    subst (λ o. IsSound 0 (n, servers, c, first, o, l) 0) (sym no_result)
      (subst (λ m. IsSound 0 (n, servers, c, first, none, m) 0) (sym empty)
        (record {
          servers = e;
          bounded = omega arith;
          counts = omega (arith, zero);
          started = λ h. absurd (omega arith);
          unjudged = λ _. refl;
          genuine = tt;
          once = omega arith;
          numbered = tt;
        }))

module _ (servers : String → List String) (suber : Suber) (d : Request)
    (array : d.exec_num ≡ length (servers (at "" "Server-Array" d.req_headers))) where
  pub fresh-Sound : Sound (fresh servers suber d)
  unfolding init_task_from_fist_req sends
  fresh-Sound =
      let l = servers (at "" "Server-Array" d.req_headers) in
      let t = add_servers suber l (new_task d.sid d.exec_num) in
      let (n, e, c, r, m) = add_servers_lem suber l (new_task d.sid d.exec_num) in
      empty-IsSound t.exec_num t.server_array t.judge_num_ctr t.first_req_data t.judge_result
        t.judge_data_list (omega (arith, n, e, array)) c r m

  module _ {r : Running} (path : Reach (fresh servers suber d) r) (polite : IsPolite path) where
    -- In the life of a task its backend is called at most once, whatever requests, timeouts and
    -- answers come, if the first request counts the servers of its Server-Array and no executor asks for
    -- the URL of the timer.
    pub backend_called_once : sends r.calls ≤ 1
    backend_called_once =
        at_most_one r.task.judge_result (sends r.calls) (Reach-Sound fresh-Sound path polite).once

    -- In the life of a task no result is a request that the timer made, if the first request counts the
    -- servers of its Server-Array and no executor asks for the URL of the timer.
    pub judge_result-Genuine : (e : Request) → r.task.judge_result ≡ some e → is_timeout e ≡ false
    judge_result-Genuine e h = subst AllGenuine h (Reach-Sound fresh-Sound path polite).genuine

    -- In the life of a task there are at most as many requests as servers, and each was counted, if the
    -- first request counts the servers of its Server-Array and no executor asks for the URL of the timer.
    pub requests_bounded :
        (size r.task.judge_data_list ≤ length r.task.server_array)
        × (r.task.judge_num_ctr ≡ size r.task.judge_data_list)
    requests_bounded =
        let s = Reach-Sound fresh-Sound path polite in (s.bounded, omega (arith, s.counts))

    -- In the life of a task, when its timer has run, as many requests were counted as there are servers,
    -- if the first request counts the servers of its Server-Array, no server is in it twice and no
    -- executor asks for the URL of the timer.
    pub timer_completes :
        (env : Env) (ptr : ℕ → ℕ)
        → 0 < size r.task.judge_data_list
        → NoTwice r.task.server_array
        → (judge_timeout_cb env ptr r).task.judge_num_ctr ≡ length r.task.server_array
    timer_completes env ptr some_in once =
        judge_timeout_cb_completes env ptr r (Reach-Sound fresh-Sound path polite) some_in once
