-- ===== src/Proxy/Monitor/Tests.antt =====
-- Requests of the monitor, on which the theorems about src/mimic_proxy.cpp are applied.
use openstack_mimic_componen.Base.{
  ◌≡◌, refl, true, List, [], ◌∷◌, Option, none, some, String, String_discrete, ite, All,
}
use openstack_mimic_componen.Base.Int.{pos}
use openstack_mimic_componen.Map.{text_key, find}
use openstack_mimic_componen.Map.Distinct.{Distinct}
use openstack_mimic_componen.Proxy.Monitor.{
  Desk, MonitorRequest, Libraries, config_sql, config_policy, respond, success,
}
use openstack_mimic_componen.Proxy.Monitor.Config.{
  set_rows, read_as, is_plain, IsPlain, Obeys, wanted, config_policy-find,
}

abbrev test_members : List (String × String)
test_members = ("judge_rule_h", "time") ∷ ("judge_rule_n", "weight") ∷ []

-- A database that carries out the statements of the two members.
test_update : String → List (String × String) → Option (List (String × String))
test_update sql rows =
    ite (String_discrete sql (config_sql "judge_rule_h" "time"))
      (some (set_rows "judge_rule_h" "time" rows))
      (ite (String_discrete sql (config_sql "judge_rule_n" "weight"))
        (some (set_rows "judge_rule_n" "weight" rows)) none)

abbrev test_libraries : Libraries
test_libraries = record {
  opt_list = λ s. some ((some "1.1.1.1:18776", some "up") ∷ []);
  members = λ s. some (read_as test_members);
  execs = λ s. some ((some "1.1.1.1:18774", some (pos 30)) ∷ []);
  mimic_switch = λ s. some "on";
  split = λ s. some ("1.1.1.1", "18774");
  size = λ s. 100;
  like = λ p s. true;
  reads = true;
  update = test_update;
  updates = λ s. true;
}

abbrev test_desk : Desk
test_desk = record {
  config = ("judge_rule_h", "weight") ∷ ("judge_rule_k", "time") ∷ [];
  weights = ("1.1.1.1:18774", pos 20) ∷ [];
  messages = [];
  answers = [];
}

abbrev test_monitor : MonitorRequest
test_monitor = record {
  content_type_lower = some "application/json";
  content_type = some "application/json";
  body = some "{}";
}

two_members : Distinct test_members
unfolding find String_discrete
two_members = (refl, (refl, tt))

two_obeyed : All (Obeys test_libraries) test_members
unfolding test_update String_discrete
two_obeyed = (λ _ rows. refl, (λ _ rows. refl, tt))

two-IsPlain : All IsPlain test_members
unfolding is_plain
two-IsPlain = ((refl, refl), ((refl, refl), tt))

config_policy-find_example :
    (d' : Desk) × (config_policy test_libraries (some (read_as test_members)) test_desk
      ≡ some (respond success d'))
    × ((k : String) → find k d'.config ≡ wanted test_members k (find k test_desk.config))
config_policy-find_example =
    config_policy-find test_libraries test_members test_desk refl two_obeyed two-IsPlain
      (refl, (refl, tt)) two_members
