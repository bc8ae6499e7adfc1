-- ===== src/Proxy/Judge.antt =====
-- src/proxy_task.cpp: judgeData and timeOrWeightJudge.
pub mod Once
pub mod Rules
pub mod Total
pub mod Places
use openstack_mimic_componen.Base.{
  ℕ, ◌+◌, ◌/◌, ◌%◌, Bool, true, false, not, ◌&&◌, String, String_discrete, List, [], ◌∷◌, ◌++◌,
  Option, none, some, if◌then◌else◌, ite, leb, ltb, ◌==◌, length, get_elem?, filter, find?, is_some,
  includes,
}
use openstack_mimic_componen.Map.{Map, text_key, number_key, values, size, at, find, emplace}
use openstack_mimic_componen.Proxy.State.{
  JudgeData, null_data, DiffRecord, Records, Group, Groups, Task,
}
use openstack_mimic_componen.Proxy.Compare.{Comparer, cmp_judge_data, record_cmp_error_ret}

-- The walk through the groups: the first that agrees takes the key, and every one before it has its
-- difference recorded.
unfoldable pub compare_groups :
    Comparer → JudgeData → String → Groups → Records → Bool × (Groups × Records)
compare_groups c current key [] records = (false, ([], records))
compare_groups c current key ((p, (d, keys)) ∷ groups) records =
    let (same, seen) = cmp_judge_data c d current records in
    let (found, (later, done)) = compare_groups c current key groups seen in
    if same
    then (true, ((p, (d, keys ++ (key ∷ []))) ∷ groups, seen))
    else (found, ((p, (d, keys)) ∷ later, done))

abbrev pub about : String → DiffRecord → Bool
about key d = ite (String_discrete d.judge_data_key key) true false

-- A new group is given the records of its differences from the groups before it.
unfoldable pub fill_in : String → JudgeData → List Group → Records → Records
fill_in key current [] records = records
fill_in key current ((d, keys) ∷ groups) records =
    ite (String_discrete d.key key) (fill_in key current groups records)
      (elim (find? (about key) (at [] d.key records)) [
        | none ↦ fill_in key current groups records
        | some r ↦
            fill_in key current groups
              (record_cmp_error_ret current d r.error_reason r.error_detail records)
      ])

-- The groups after the answer under `key` has found its place.
unfoldable pub place_answer : Comparer → String → Task → Task
place_answer c key t =
    let current = at null_data key t.judge_data_list in
    let (same, (groups, records)) = compare_groups c current key t.judge_group t.cmp_ret_record in
    let grown = emplace current.ptr (current, key ∷ []) groups in
    if same then record t { judge_group = groups; cmp_ret_record = records } else record t {
      judge_group = grown;
      cmp_ret_record = fill_in key current (values grown) records;
    }

-- `ceil(execNum / 2.0)`
abbrev pub half : ℕ → ℕ
half n = (n + 1) / 2

abbrev pub is_ok : Group → Bool
is_ok g = leb 200 g.0.resp_status && ltb g.0.resp_status 300

abbrev pub not_504 : Group → Bool
not_504 g = not (g.0.resp_status == 504)

-- The answer in place of a 504: the first with a status of 2xx, or else the first but 504.
unfoldable pub instead : List Group → Option JudgeData
instead groups = elim (find? is_ok groups) [
  | some g ↦ some g.0
  | none ↦ elim (find? not_504 groups) [ some g ↦ some g.0 | none ↦ none ]
]

abbrev pub or_else : JudgeData → Option JudgeData → JudgeData
or_else d none = d
or_else d (some e) = e

-- The loop of the majority rule, while there is no result.
unfoldable pub majority : (exec_num answers : ℕ) → List Group → List Group → Option JudgeData
majority exec_num answers all [] = none
majority exec_num answers all (g ∷ groups) =
    let later = majority exec_num answers all groups in
    if leb (half exec_num) (length g.1)
    then (if not_504 g
        then some g.0
        else if answers == exec_num
        then some (or_else g.0 (instead all))
        else later)
    else later

unfoldable pub least : ℕ → Map String ℕ → ℕ
least m [] = m
least m ((k, n) ∷ l) = least (if ltb n m then n else m) l

abbrev pub with_value : ℕ → Map String ℕ → Map String ℕ
with_value m = filter (λ e. e.1 == m)

abbrev pub from_exec : String → JudgeData → Bool
from_exec addr d = ite (String_discrete d.exec_addr addr) true false

-- The answer of the only executor in the list. With several it is the answer at a random place,
-- counted among all answers.
unfoldable pub pick_among :
    (random : ℕ) → Map String ℕ → (answers : Map String JudgeData) → Option JudgeData
pick_among random [] answers = get_elem? (values answers) 0
pick_among random ((addr, n) ∷ []) answers = find? (from_exec addr) (values answers)
pick_among random (a ∷ b ∷ l) answers = get_elem? (values answers) (random % length (a ∷ b ∷ l))

abbrev pub by_uptime :
    (random smallest : ℕ) → (uptimes : Map String ℕ) → Map String JudgeData → Option JudgeData
by_uptime random smallest uptimes answers = pick_among random (with_value smallest uptimes) answers

-- Among several executors the uptimes decide. `minUptime` starts from the uptime of the first of them,
-- where a missing one is made with 0, and goes on through all executors.
unfoldable pub pick_fewest :
    (random : ℕ)
    → Map String ℕ
    → (uptimelist : Map String ℕ) → Map String JudgeData
    → Option JudgeData
pick_fewest random [] uptimelist answers = get_elem? (values answers) 0
pick_fewest random ((addr, n) ∷ []) uptimelist answers = find? (from_exec addr) (values answers)
pick_fewest random ((addr, n) ∷ b ∷ l) uptimelist answers =
    let uptimes = emplace addr 0 uptimelist in
    by_uptime random (least (at 0 addr uptimes) uptimes) uptimes answers

-- The two rules of timeOrWeightJudge. `none` where the source has no defined result: the first entry
-- of an empty list is read, or the search runs off the end of the function.
abbrev pub by_weight :
    (random : ℕ) → (failcounts uptimelist : Map String ℕ) → Map String JudgeData → Option JudgeData
by_weight random [] uptimelist answers = none
by_weight random ((addr, n) ∷ l) uptimelist answers =
    pick_fewest random (with_value (least n ((addr, n) ∷ l)) ((addr, n) ∷ l)) uptimelist answers

abbrev pub by_time :
    (random : ℕ) → (uptimes : Map String ℕ) → Map String JudgeData → Option JudgeData
by_time random [] answers = none
by_time random ((addr, n) ∷ l) answers =
    by_uptime random (least n ((addr, n) ∷ l)) ((addr, n) ∷ l) answers

unfoldable pub time_or_weight_judge : (random : ℕ) → Task → Option JudgeData
time_or_weight_judge random t =
    if includes t.judge_rule "weight"
    then by_weight random t.failcount_list t.uptimelist t.judge_data_list
    else by_time random t.uptimelist t.judge_data_list

abbrev pub decide : String → JudgeData → Task → ℕ × Task
decide rule d t = (1, record t { judge_result = some d; ret_group_key = d.key; judge_type = rule })

-- The answer by time or weight, unless it is a 504 and there is another.
unfoldable pub not_gateway_timeout : JudgeData → List Group → JudgeData
not_gateway_timeout d groups = if d.resp_status == 504 then or_else d (instead groups) else d

unfoldable pub by_time_or_weight : (random : ℕ) → Task → ℕ × Task
by_time_or_weight random t =
    if size t.judge_data_list == length t.addr_list
    then elim (time_or_weight_judge random t) [
      | none ↦ (0, t)
      | some d ↦ decide "TIME_OR_WEIGHT" (not_gateway_timeout d (values t.judge_group)) t
    ]
    else (0, t)

-- The two rules, which apply while there is no result.
unfoldable pub by_rules : (random : ℕ) → Task → ℕ × Task
by_rules random t =
    if is_some t.judge_result
    then (0, t)
    else elim (majority (length t.addr_list) (size t.judge_data_list) (values t.judge_group)
        (values t.judge_group)) [
          | some d ↦ decide "MAJORITY" d t
          | none ↦ by_time_or_weight random t
        ]

unfoldable pub judge_data : Comparer → (random : ℕ) → String → Task → ℕ × Task
judge_data c random key t =
    let current = at null_data key t.judge_data_list in
    if (size t.judge_data_list == 1) && (length t.addr_list == 1)
    then (1, record t { judge_result = some current })
    else if size t.judge_data_list == 1
    then (0, record t { judge_group = emplace current.ptr (current, key ∷ []) t.judge_group })
    else by_rules random (place_answer c key t)
