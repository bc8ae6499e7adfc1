-- ===== src/Judge/Sound/Added.antt =====
-- src/judge_task.cpp: the request that processJudgeData adds to `judgeDataList`.
use openstack_mimic_componen.Base.{
  ℕ, ◌+◌, ◌<◌, ◌≡◌, refl, sym, subst, ◌⊎◌, inl, inr, String, List, Option, none, some, if_cases,
  ◌==◌, length, arith,
}
use openstack_mimic_componen.Base.Text.Numbers.{last_number}
use openstack_mimic_componen.Map.{Map, text_key, size, find, emplace}
use openstack_mimic_componen.Judge.State.{Request, Task, Running}
use openstack_mimic_componen.Judge.Decide.Once.{Genuine}
use openstack_mimic_componen.Judge.Respond.Frame.{core, sends}
use openstack_mimic_componen.Judge.Process.{add_request}
use openstack_mimic_componen.Judge.Keys.{Numbered, emplace-Numbered}
use openstack_mimic_componen.Judge.Sound.{Started, IsSound, Sound}

-- The request under `key` is in the list, and is the only one when the task has one executor.
abbrev pub Added : Request → String → Running → Type 0
Added d key r =
    IsSound 1 (core r.task) (sends r.calls)
    × (find key r.task.judge_data_list ≡ some d)
    × (0 < size r.task.judge_data_list)

-- The list with one request more.
grow :
    (n : ℕ) (servers : List String) (c : ℕ) (first first' result : Option Request)
    (l l' : Map String Request) (calls : ℕ)
    → IsSound 0 (n, servers, c, first, result, l) calls
    → size l < length servers
    → size l' ≡ size l + 1
    → Numbered (size l + 1) l'
    → Started first'
    → IsSound 1 (n, servers, c, first', result, l') calls
grow n servers c first first' result l l' calls s lt grown numbered st = record {
  servers = s.servers;
  bounded = omega (arith, grown);
  counts = omega (arith, grown, s.counts);
  started = λ _. st;
  unjudged = λ z. absurd (omega (arith, grown, z));
  genuine = s.genuine;
  once = s.once;
  numbered = subst (λ m. Numbered m l') (sym grown) numbered;
}

module _ (d : Request) (key : String) (r : Running) where
  pub add_request-Added :
      Sound r
      → size r.task.judge_data_list < length r.task.server_array
      → last_number key ≡ size r.task.judge_data_list + 1
      → Genuine d ⊎ (0 < size r.task.judge_data_list)
      → Added d key (add_request d key r)
  unfolding add_request sends
  add_request-Added s l e g =
      let t = r.task in
      let list' = emplace key d t.judge_data_list in
      let (grown, numbered, found) = emplace-Numbered key d t.judge_data_list s.numbered e in
      let sound = λ (first : Option Request) (st : Started first).
        grow t.exec_num t.server_array t.judge_num_ctr t.first_req_data first t.judge_result
          t.judge_data_list list' (sends r.calls) s l grown numbered st in
      if_cases (Added d key) (size list' == 1)
        (λ one. (
          sound (some d) (elim g [ inl h ↦ h | inr h ↦ absurd (ground (arith, grown, one, h)) ]),
          found,
          omega (arith, grown),
        ))
        (λ more. (
          sound t.first_req_data (s.started (ground (arith, grown, more))),
          found,
          omega (arith, grown),
        ))

-- With one executor the request is the first.
pub add_request_single :
    (d : Request) (key : String) (r : Running)
    → Sound r
    → size r.task.judge_data_list < length r.task.server_array
    → Genuine d ⊎ (0 < size r.task.judge_data_list)
    → (add_request d key r).task.exec_num ≡ 1
    → ((add_request d key r).task.judge_result ≡ none) × Genuine d
unfolding add_request
add_request_single d key r s l g one =
    if_cases (λ (u : Running). u.task.exec_num ≡ 1 → (u.task.judge_result ≡ none) × Genuine d)
      (size (emplace key d r.task.judge_data_list) == 1) (λ _ e. rest e) (λ _ e. rest e) one
  where
    rest : r.task.exec_num ≡ 1 → (r.task.judge_result ≡ none) × Genuine d
    rest e = (
      s.unjudged (omega (arith, s.servers)),
      elim g [ inl h ↦ h | inr h ↦ absurd (omega (arith, s.servers)) ],
    )

abbrev pub lists : Task → List String × Map String Request
lists t = (t.server_array, t.judge_data_list)

pub add_request-lists :
    (d : Request) (key : String) (r : Running)
    → lists (add_request d key r).task ≡ (r.task.server_array, emplace key d r.task.judge_data_list)
unfolding add_request
add_request-lists d key r =
    if_cases
      (λ (u : Running). lists u.task ≡ (r.task.server_array, emplace key d r.task.judge_data_list))
      (size (emplace key d r.task.judge_data_list) == 1) (λ _. refl) (λ _. refl)

-- A request that was only added decides nothing.
pub add_request-same :
    (d : Request) (key : String) (r : Running)
    → ((add_request d key r).task.judge_result ≡ r.task.judge_result)
      × (sends (add_request d key r).calls ≡ sends r.calls)
unfolding add_request sends
add_request-same d key r =
    if_cases
      (λ (u : Running).
        (u.task.judge_result ≡ r.task.judge_result) × (sends u.calls ≡ sends r.calls))
      (size (emplace key d r.task.judge_data_list) == 1) (λ _. (refl, refl)) (λ _. (refl, refl))
