-- ===== src/Judge/Sound.antt =====
-- src/judge_task.cpp: what holds of a JudgeTask at all times.
pub mod Added
pub mod Judged
pub mod Process
use openstack_mimic_componen.Base.{
  ℕ, ◌+◌, ◌≤◌, ◌<◌, ◌≡◌, refl, sym, subst, ap, ◌∙◌, ◌⊎◌, inl, inr, true, not, ◌&&◌, String, List,
  Option, none, some, if_cases, ltb, ◌==◌, length, arith,
}
use openstack_mimic_componen.Base.Text.Numbers.{last_number}
use openstack_mimic_componen.Map.{Map, text_key, size, find, emplace}
use openstack_mimic_componen.Map.Laws.{at-some}
use openstack_mimic_componen.Judge.State.{Request, null_request, Task, Running}
use openstack_mimic_componen.Judge.Decide.{judge_data}
use openstack_mimic_componen.Judge.Decide.Once.{
  Base, base, Genuine, Judgement, judge_data-Judgement,
}
use openstack_mimic_componen.Judge.Analyse.{Env}
use openstack_mimic_componen.Judge.Respond.{send_to_backend}
use openstack_mimic_componen.Judge.Respond.Frame.{
  Core, core, sends, Quiet, finish-Quiet, response_to_frond_req-Quiet, send_to_backend_once,
}
use openstack_mimic_componen.Judge.Process.{
  horizon_service, add_request, judge_and_send, counted, after_judging, process_judge_data,
}
use openstack_mimic_componen.Judge.Keys.{Numbered, emplace-Numbered}

-- There is a first request, and it came from an executor.
abbrev pub Started : Option Request → Type 0
Started none = ⊥
Started (some f) = Genuine f

abbrev pub AllGenuine : Option Request → Type 0
AllGenuine none = Unit
AllGenuine (some d) = Genuine d

abbrev pub results : Option Request → ℕ
results none = 0
results (some d) = 1

-- `pending` requests are in the list and have not been counted yet; the backend was called `s` times.
pub record IsSound (pending : ℕ) (c : Core) (s : ℕ) : Type 0 where
  pub servers : c.0 ≡ length c.1
  pub bounded : size c.5 ≤ length c.1
  pub counts : c.2 + pending ≡ size c.5
  pub started : 0 < size c.5 → Started c.3
  pub unjudged : size c.5 ≡ 0 → c.4 ≡ none
  pub genuine : AllGenuine c.4
  pub once : s ≤ results c.4
  pub numbered : Numbered (size c.5) c.5

abbrev pub Sound : Running → Type 0
Sound r = IsSound 0 (core r.task) (sends r.calls)

pub Quiet-IsSound :
    (p : ℕ) (r u : Running)
    → Quiet r u
    → IsSound p (core r.task) (sends r.calls)
    → IsSound p (core u.task) (sends u.calls)
Quiet-IsSound p r u q s =
    subst (λ c. IsSound p c (sends u.calls)) (sym q.0)
      (subst (λ n. IsSound p (core r.task) n) (sym q.1) s)
