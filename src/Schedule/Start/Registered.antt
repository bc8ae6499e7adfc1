-- ===== src/Schedule/Start/Registered.antt =====
-- src/mimic_schedule.cpp: the registration of the executors in execStatusReport.
use Prim.Native.String.{String}
use text.Mathlib.TextLemmas.{nil-append, cons-append}
use openstack_mimic_componen.Base.{
  ℕ, suc, ◌≡◌, ◌≢◌, refl, sym, ap, ◌∙◌, true, false, false≢true, Bool, List, [], ◌∷◌, arith,
  if_cases, ◌+s◌, to_string,
}
use openstack_mimic_componen.Map.{Map, text_key, find, at, emplace}
use openstack_mimic_componen.Map.Laws.{find-emplace}
use openstack_mimic_componen.Map.Distinct.{emplace-Distinct}
use openstack_mimic_componen.Schedule.State.{
  Executor, Scheduler, Config, ExecBaseInfo, addr_of, has_status, active,
}
use openstack_mimic_componen.Schedule.Lists.{IsConsistent}
use openstack_mimic_componen.Schedule.Report.{init_executor, register_execs, exec_status_report}

is_blank : String → Bool
is_blank String.[] = true
is_blank (String.◌∷◌ c s) = false

-- No "ip:port" is blank.
address_not_blank : (ip port : String) → is_blank (ip +s ":" +s port) ≡ false
unfolding is_blank
address_not_blank String.[] port =
    ap is_blank (ap (λ u. u +s port) (nil-append ":") ∙ cons-append _ String.[] port)
address_not_blank (String.◌∷◌ c s) port =
    ap is_blank (ap (λ u. u +s port) (cons-append c s ":") ∙ cons-append c (s +s ":") port)

-- One more executor that is not active, under its own address.
emplace-IsConsistent :
    (k : String) (e : Executor) (all : Map String Executor)
    → k ≢ ""
    → addr_of e ≡ k
    → has_status active e ≡ false
    → IsConsistent all []
    → IsConsistent (emplace k e all) []
unfolding find at
emplace-IsConsistent k e all n a d c = record {
  all_distinct = emplace-Distinct k e all c.all_distinct;
  up_distinct = tt;
  keyed = λ j f p. ground (arith, find-emplace k j e all, c.keyed j f, a, p);
  no_blank = ground (arith, find-emplace k "" e all, c.no_blank);
  in_step = λ j. ground (arith, find-emplace k j e all, c.in_step j, d);
}

register_execs-IsConsistent :
    (c : Config) (n : ℕ) (bs : List ExecBaseInfo) (all : Map String Executor)
    → IsConsistent all []
    → IsConsistent (register_execs c n bs all) []
unfolding register_execs init_executor addr_of is_blank
register_execs-IsConsistent c n [] all h = h
register_execs-IsConsistent c n (b ∷ bs) all h =
    let addr = b.ip +s ":" +s to_string b.port in
    register_execs-IsConsistent c (suc n) bs _ (
      emplace-IsConsistent addr (init_executor c (suc n) b) all
        (λ p. false≢true (sym (address_not_blank b.ip (to_string b.port)) ∙ ap is_blank p)) refl
        refl h)

pub exec_status_report-IsConsistent :
    (s : Scheduler)
    → IsConsistent s.all_exec_list []
    → IsConsistent (exec_status_report s).all_exec_list []
unfolding exec_status_report
exec_status_report-IsConsistent s h =
    if_cases (λ (t : Scheduler). IsConsistent t.all_exec_list []) s.is_first_start
      (λ _. register_execs-IsConsistent s.config 0 s.config.exec_info s.all_exec_list h) (λ _. h)
