-- ===== src/Judge/Protocol.antt =====
-- src/judge_task.cpp and src/mimic_jthread.cpp: what a JudgeTask promises, as an abstract protocol, and
-- that every step of a task follows it.
use openstack_mimic_componen.Base.{
  ℕ, ◌+◌, ◌≤◌, ◌<◌, ◌≡◌, sym, subst, ap, ◌∙◌, ◌⊎◌, inl, inr, false, String, List, [], ◌∷◌, Option,
  none, some, if_cases, leb, ◌==◌, length, map, arith, ◌+s◌,
}
use openstack_mimic_componen.Base.Text.Numbers.{last_number, last_number-dash}
use openstack_mimic_componen.Map.{Map, text_key, size, values, at}
use openstack_mimic_componen.Suber.{Suber}
use openstack_mimic_componen.Judge.State.{Request, Running}
use openstack_mimic_componen.Judge.Decide.{is_timeout}
use openstack_mimic_componen.Judge.Decide.Once.{Genuine}
use openstack_mimic_componen.Judge.Analyse.{Env}
use openstack_mimic_componen.Judge.Respond.{backend_resp_cb, backend_resp_err_cb}
use openstack_mimic_componen.Judge.Respond.Frame.{
  Core, core, sends, Quiet, backend_resp_cb-Quiet, backend_resp_err_cb-Quiet,
}
use openstack_mimic_componen.Judge.Process.{
  process_judge_data, process_timeout, timeout_request, timeout_each, judge_timeout_cb, not_come,
}
use openstack_mimic_componen.Judge.Thread.{is_refused, joined, keyed, admit}
use openstack_mimic_componen.Judge.Keys.{emplace-Numbered}
use openstack_mimic_componen.Judge.Sound.{Sound}
use openstack_mimic_componen.Judge.Sound.Process.{
  process_judge_data-lists, process_judge_data-Decision,
}
use openstack_mimic_componen.Judge.Timeout.{requests, servers, process_timeout-Sound, length-come}
use openstack_mimic_componen.Judge.Life.{
  Step, request, timer, answer, failure, Asks, Reach, here, next, IsPolite, fresh, fresh-Sound,
  Reach-Sound,
}

-- What a task shows: how many servers it has and how many were heard, its result, and how often the
-- backend was called.
pub record View : Type 0 where
  pub servers : ℕ
  pub heard : ℕ
  pub result : Option Request
  pub sent : ℕ

abbrev pub view : Running → View
view r = record {
  servers = length r.task.server_array;
  heard = size r.task.judge_data_list;
  result = r.task.judge_result;
  sent = sends r.calls;
}

-- A server is heard, which may decide the task if it is open; only the decision calls the backend.
pub data Move (v w : View) : Type 0 where
  hear :
      v.heard < v.servers
      → w.servers ≡ v.servers
      → w.heard ≡ v.heard + 1
      → w.result ≡ v.result
      → w.sent ≡ v.sent
      → Move v w
  decide :
      (d : Request)
      → v.heard < v.servers
      → w.servers ≡ v.servers
      → w.heard ≡ v.heard + 1
      → v.result ≡ none
      → w.result ≡ some d
      → is_timeout d ≡ false
      → w.sent ≤ v.sent + 1
      → Move v w

pub data Moves (v : View) : View → Type 0 where
  stay : Moves v v
  then : {w x : View} → Moves v w → Move w x → Moves v x

module _ (env : Env) (d : Request) (key : String) (r : Running) where
  process_judge_data-Move :
      Sound r
      → size r.task.judge_data_list < length r.task.server_array
      → last_number key ≡ size r.task.judge_data_list + 1
      → Genuine d ⊎ (0 < size r.task.judge_data_list)
      → Move (view r) (view (process_judge_data env d key r))
  process_judge_data-Move s l e g =
      let same = process_judge_data-lists env d key r s l e g in
      let (grown, numbered, found) = emplace-Numbered key d r.task.judge_data_list s.numbered e in
      let array = ap (λ (p : List String × Map String Request). length p.0) same in
      let heard = ap (λ (p : List String × Map String Request). size p.1) same ∙ grown in
      elim (process_judge_data-Decision env d key r s l e g) [
        | inl (h, n) ↦ hear l array heard h n
        | inr (e', fresh', h, genuine, more) ↦ decide e' l array heard fresh' h genuine more
      ]

abbrev view_of : Core → ℕ → View
view_of c n = record { servers = length c.1; heard = size c.5; result = c.4; sent = n }

-- A step that leaves the judgement alone shows nothing.
Quiet-Moves : (v : View) (r u : Running) → Quiet r u → Moves v (view r) → Moves v (view u)
Quiet-Moves v r u q m =
    subst (λ c. Moves v (view_of c (sends u.calls))) (sym q.0)
      (subst (λ n. Moves v (view_of (core r.task) n)) (sym q.1) m)

module _ (v : View) (env : Env) where
  admit-Moves :
      (d : Request) (r : Running)
      → is_refused d r.task ≡ false
      → Genuine d
      → Sound r
      → Moves v (view r)
      → Moves v (view (admit env d r))
  unfolding admit is_refused is_timeout
  admit-Moves d r h g s m =
      let u : Running = record r { task = joined d r.task } in
      let room : size r.task.judge_data_list < length r.task.server_array =
        ground (arith, h, s.bounded) in
      then m (
        process_judge_data-Move env (keyed d r.task) (keyed d r.task).key u s room
          (last_number-dash d.key (size r.task.judge_data_list + 1)) (inl g))

  module _ (ptr : ℕ → ℕ) where
    timeout_each-Moves :
        (hosts : List String) (count : ℕ) (r : Running)
        → Sound r
        → 0 < requests r
        → count ≡ requests r
        → requests r < servers r
        → Moves v (view r)
        → Moves v (view (timeout_each env ptr hosts count r))
    unfolding timeout_each timeout_request
    timeout_each-Moves [] count r s some_in e l m = m
    timeout_each-Moves (host ∷ hosts) count r s some_in e l m =
        let d = timeout_request (ptr (count + 1)) host (count + 1) r.task in
        let done = process_timeout env ptr host (count + 1) r in
        let (sound, same, grown) = process_timeout-Sound env ptr host count r s some_in e l in
        let number = last_number-dash (r.task.sid +s "-" +s host) (count + 1) ∙ ap (λ n. n + 1) e in
        let moved = then m (process_judge_data-Move env d d.key r s l number (inr some_in)) in
        if_cases (λ (u : Running). Moves v (view u)) (leb (servers done) (count + 1)) (λ _. moved)
          (λ more.
            timeout_each-Moves hosts (count + 1) done sound (omega (arith, grown))
              (omega (arith, grown, e)) (ground (arith, more, grown, e)) moved)

    judge_timeout_cb-Moves :
        (r : Running)
        → Sound r
        → 0 < requests r
        → Moves v (view r)
        → Moves v (view (judge_timeout_cb env ptr r))
    unfolding judge_timeout_cb
    judge_timeout_cb-Moves r s some_in m =
        let come = map (λ d. d.exec_addr) (values r.task.judge_data_list) in
        if_cases (λ (u : Running). Moves v (view u)) (requests r == servers r) (λ _. m)
          (λ n.
            timeout_each-Moves (not_come come r.task.server_array) (length come) r s some_in
              (length-come r.task.judge_data_list) (ground (arith, n, s.bounded)) m)

Step-Moves :
    (v : View) {r u : Running} (step : Step r u)
    → Asks step
    → Sound r
    → Moves v (view r)
    → Moves v (view u)
unfolding Asks
Step-Moves v (request env d r _ h) g s m = admit-Moves v env d r h g s m
Step-Moves v (timer env ptr r _ h) g s m = judge_timeout_cb-Moves v env ptr r s h m
Step-Moves v (answer env resp r _) g s m =
    Quiet-Moves v r (backend_resp_cb env resp r) (backend_resp_cb-Quiet env resp r) m
Step-Moves v (failure env resp r _) g s m =
    Quiet-Moves v r (backend_resp_err_cb env resp r) (backend_resp_err_cb-Quiet env resp r) m

Reach-Moves :
    {r u : Running} → Sound r → (path : Reach r u) → IsPolite path → Moves (view r) (view u)
unfolding IsPolite
Reach-Moves s here p = stay
Reach-Moves {r} s (next path step) p =
    Step-Moves (view r) step p.1 (Reach-Sound s path p.0) (Reach-Moves s path p.0)

-- The life of a task refines the protocol: from the first request on, what the task shows changes only
-- by hearing one more server while there is one left, and by deciding once, for a request of an
-- executor, which alone may call the backend, and only once. The first request counts the servers of
-- its Server-Array, and no executor asks for the URL of the timer.
pub fresh-Moves :
    (array : String → List String) (suber : Suber) (d : Request) {r : Running}
    → d.exec_num ≡ length (array (at "" "Server-Array" d.req_headers))
    → (path : Reach (fresh array suber d) r) → IsPolite path
    → Moves (view (fresh array suber d)) (view r)
fresh-Moves array suber d e path polite = Reach-Moves (fresh-Sound array suber d e) path polite
