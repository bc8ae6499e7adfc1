-- ===== src/Judge/Sound/Judged.antt =====
-- src/judge_task.cpp: the judgement of an added request and the call of the backend.
use openstack_mimic_componen.Base.{
  ℕ, ◌+◌, ◌≤◌, ◌<◌, ◌≡◌, refl, sym, subst, ap, ◌∙◌, ◌⊎◌, inl, inr, String, Option, none, some,
  if_cases, ◌==◌, arith,
}
use openstack_mimic_componen.Map.{text_key, size}
use openstack_mimic_componen.Map.Laws.{at-some}
use openstack_mimic_componen.Judge.State.{Request, null_request, Running}
use openstack_mimic_componen.Judge.Decide.{judge_data}
use openstack_mimic_componen.Judge.Decide.Once.{
  Base, base, Genuine, Judgement, judge_data-Judgement,
}
use openstack_mimic_componen.Judge.Analyse.{Env}
use openstack_mimic_componen.Judge.Respond.Frame.{Core, core, sends, send_to_backend_once}
use openstack_mimic_componen.Judge.Process.{judge_and_send}
use openstack_mimic_componen.Judge.Sound.{Started, AllGenuine, results, IsSound}
use openstack_mimic_componen.Judge.Sound.Added.{Added}

-- A new result, where the backend was called no more often than there are results.
with_result :
    (c : Core) (calls calls' : ℕ) (b : Base) (o : Option Request)
    → IsSound 1 c calls
    → b ≡ (c.0, c.1, c.2, c.3, c.5)
    → 0 < size c.5
    → AllGenuine o × (calls' ≤ results o)
    → IsSound 1 (b.0, b.1, b.2, b.3, o, b.4) calls'
with_result c calls calls' b o s e some_in g =
    subst (λ (b : Base). IsSound 1 (b.0, b.1, b.2, b.3, o, b.4) calls') (sym e)
      (record {
        servers = s.servers;
        bounded = s.bounded;
        counts = s.counts;
        started = s.started;
        unjudged = λ z. absurd (omega arith);
        genuine = g.0;
        once = g.1;
        numbered = s.numbered;
      })

first_of : (o : Option Request) → Started o → (f : Request) × (o ≡ some f) × Genuine f
first_of none h = absurd h
first_of (some f) h = (f, refl, h)

judgement :
    (env : Env) (d : Request) (key : String) (r : Running)
    → Added d key r
    → (r.task.exec_num ≡ 1 → (r.task.judge_result ≡ none) × Genuine d)
    → Judgement r.task (judge_data env.comparer (env.random key) key r.task)
judgement env d key r (s, found, some_in) single =
    let (f, first, genuine) = first_of r.task.first_req_data (s.started some_in) in
    judge_data-Judgement env.comparer (env.random key) key r.task f first genuine (λ one.
      let (n, g) = single one in
      (n, subst Genuine (sym (at-some null_request key r.task.judge_data_list found)) g))

-- What the judgement leaves alone, and its decision: the result stays and nothing is sent, or there was
-- none, the new one came from an executor, and the backend is called once at most.
abbrev pub Decision : Running → Running → Type 0
Decision r u =
    ((u.task.judge_result ≡ r.task.judge_result) × (sends u.calls ≡ sends r.calls))
    ⊎ ((d : Request) × (r.task.judge_result ≡ none)
        × (u.task.judge_result ≡ some d)
        × Genuine d
        × (sends u.calls ≤ sends r.calls + 1))

abbrev Judged : Running → Running → Type 0
Judged r u = (base u.task ≡ base r.task) × Decision r u

pub judge_and_send-Decision :
    (env : Env) (d : Request) (key : String) (r : Running)
    → Added d key r
    → (r.task.exec_num ≡ 1 → (r.task.judge_result ≡ none) × Genuine d)
    → Judged r (judge_and_send env key r)
unfolding judge_and_send
judge_and_send-Decision env d key r added single =
    let p = judge_data env.comparer (env.random key) key r.task in
    let stored : Running = record r { task = p.1 } in
    let (same, decision) = judgement env d key r added single in
    if_cases (Judged r) (p.0 == 1)
      (λ one. elim decision [
        | inl (zero, h) ↦ absurd (ground (arith, one, zero))
        | inr (d', ret, h, g, fresh) ↦
            let (kept, more) = send_to_backend_once env stored in
            (
              ap (λ (c : Core). (c.0, c.1, c.2, c.3, c.5)) kept ∙ same,
              inr (d', fresh, ap (λ (c : Core). c.4) kept ∙ h, g, more),
            )
      ])
      (λ n. elim decision [
        | inl (zero, h) ↦ (same, inl (h, refl))
        | inr (d', ret, h, g, fresh) ↦ absurd (ground (arith, n, ret))
      ])

-- A decision keeps the results genuine, and the calls of the backend within them.
pub decided_results :
    (r u : Running)
    → Decision r u
    → AllGenuine r.task.judge_result × (sends r.calls ≤ results r.task.judge_result)
    → AllGenuine u.task.judge_result × (sends u.calls ≤ results u.task.judge_result)
decided_results r u (inl (h, same)) (g, once) =
    subst (λ o. AllGenuine o × (sends u.calls ≤ results o)) (sym h) (g, omega (arith, same, once))
decided_results r u (inr (d, fresh, h, genuine, more)) (g, once) =
    subst (λ o. AllGenuine o × (sends u.calls ≤ results o)) (sym h)
      (genuine, omega (arith, more, subst (λ o. sends r.calls ≤ results o) fresh once))

pub judge_and_send-IsSound :
    (env : Env) (d : Request) (key : String) (r : Running)
    → Added d key r
    → (r.task.exec_num ≡ 1 → (r.task.judge_result ≡ none) × Genuine d)
    → IsSound 1 (core (judge_and_send env key r).task) (sends (judge_and_send env key r).calls)
judge_and_send-IsSound env d key r added single =
    let (s, found, some_in) = added in
    let u = judge_and_send env key r in
    let (same, decision) = judge_and_send-Decision env d key r added single in
    with_result (core r.task) (sends r.calls) (sends u.calls) (base u.task) u.task.judge_result s
      same some_in (decided_results r u decision (s.genuine, s.once))
