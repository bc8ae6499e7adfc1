-- ===== src/Judge/Decide.antt =====
-- src/judge_task.cpp: judgeData and timeOrWeightJudge.
pub mod Once
use openstack_mimic_componen.Base.{
  ℕ, ◌%◌, Bool, true, false, ◌&&◌, String, String_discrete, List, [], ◌∷◌, ◌++◌, Option, none, some,
  if◌then◌else◌, ite, leb, ◌==◌, length, get_elem?, find?, is_some, includes,
}
use openstack_mimic_componen.Map.{Map, text_key, number_key, values, size, at, emplace}
use openstack_mimic_componen.Proxy.State.{Records}
use openstack_mimic_componen.Proxy.Judge.{about, half, least, with_value}
use openstack_mimic_componen.Judge.State.{Request, null_request, Group, Groups, Task}
use openstack_mimic_componen.Judge.Compare.{Comparer, cmp_judge_data, record_cmp_error_ret}

-- The walk through the groups: the first that agrees takes the key, and every one before it has its
-- difference recorded.
unfoldable pub compare_groups :
    Comparer → Request → String → Groups → Records → Bool × (Groups × Records)
compare_groups c current key [] records = (false, ([], records))
compare_groups c current key ((p, (d, keys)) ∷ groups) records =
    let (same, seen) = cmp_judge_data c d current records in
    let (found, (later, done)) = compare_groups c current key groups seen in
    if same
    then (true, ((p, (d, keys ++ (key ∷ []))) ∷ groups, seen))
    else (found, ((p, (d, keys)) ∷ later, done))

-- A new group is given the records of its differences from the groups before it.
unfoldable pub fill_in : String → Request → List Group → Records → Records
fill_in key current [] records = records
fill_in key current ((d, keys) ∷ groups) records =
    ite (String_discrete d.key key) (fill_in key current groups records)
      (elim (find? (about key) (at [] d.key records)) [
        | none ↦ fill_in key current groups records
        | some r ↦
            fill_in key current groups
              (record_cmp_error_ret current d r.error_reason r.error_detail records)
      ])

-- The groups after the request under `key` has found its place.
unfoldable pub place_request : Comparer → String → Task → Task
place_request c key t =
    let current = at null_request key t.judge_data_list in
    let (same, (groups, records)) = compare_groups c current key t.judge_group t.cmp_ret_record in
    let grown = emplace current.ptr (current, key ∷ []) groups in
    if same then record t { judge_group = groups; cmp_ret_record = records } else record t {
      judge_group = grown;
      cmp_ret_record = fill_in key current (values grown) records;
    }

abbrev pub default_timeout : String
default_timeout = "/default_timeout"

-- A request that the timer made in place of one that did not come.
unfoldable pub is_timeout : Request → Bool
is_timeout d = ite (String_discrete d.urlfull default_timeout) true false

-- The first group with at least half of the executors.
unfoldable pub majority : (exec_num : ℕ) → List Group → Option Request
majority exec_num [] = none
majority exec_num (g ∷ groups) =
    let later = majority exec_num groups in
    if leb (half exec_num) (length g.1) then some g.0 else later

abbrev pub from_exec : String → Request → Bool
from_exec addr d = ite (String_discrete d.exec_addr addr) true false

-- The request of the only executor in the list. With several it is the request at a random place,
-- counted among all requests.
unfoldable pub pick_among :
    (random : ℕ) → Map String ℕ → (requests : Map String Request) → Option Request
pick_among random [] requests = get_elem? (values requests) 0
pick_among random ((addr, n) ∷ []) requests = find? (from_exec addr) (values requests)
pick_among random (a ∷ b ∷ l) requests = get_elem? (values requests) (random % length (a ∷ b ∷ l))

abbrev pub by_uptime :
    (random smallest : ℕ) → (uptimes : Map String ℕ) → Map String Request → Option Request
by_uptime random smallest uptimes requests =
    pick_among random (with_value smallest uptimes) requests

-- Among several executors the uptimes decide. `minUptime` starts from the uptime of the first of them,
-- where a missing one is made with 0, and goes on through all executors.
unfoldable pub pick_fewest :
    (random : ℕ) → Map String ℕ → (uptimelist : Map String ℕ) → Map String Request → Option Request
pick_fewest random [] uptimelist requests = get_elem? (values requests) 0
pick_fewest random ((addr, n) ∷ []) uptimelist requests = find? (from_exec addr) (values requests)
pick_fewest random ((addr, n) ∷ b ∷ l) uptimelist requests =
    let uptimes = emplace addr 0 uptimelist in
    by_uptime random (least (at 0 addr uptimes) uptimes) uptimes requests

-- The two rules of timeOrWeightJudge. `none` where the source has no defined result: the first entry
-- of an empty list is read, or the search runs off the end of the function.
abbrev pub by_weight :
    (random : ℕ) → (failcounts uptimelist : Map String ℕ) → Map String Request → Option Request
by_weight random [] uptimelist requests = none
by_weight random ((addr, n) ∷ l) uptimelist requests =
    pick_fewest random (with_value (least n ((addr, n) ∷ l)) ((addr, n) ∷ l)) uptimelist requests

abbrev pub by_time : (random : ℕ) → (uptimes : Map String ℕ) → Map String Request → Option Request
by_time random [] requests = none
by_time random ((addr, n) ∷ l) requests =
    by_uptime random (least n ((addr, n) ∷ l)) ((addr, n) ∷ l) requests

unfoldable pub time_or_weight_judge : (random : ℕ) → Task → Option Request
time_or_weight_judge random t =
    if includes t.judge_rule "weight"
    then by_weight random t.failcount_list t.uptimelist t.judge_data_list
    else by_time random t.uptimelist t.judge_data_list

abbrev pub decide : String → Request → Task → ℕ × Task
decide rule d t = (
  1,
  record t { judge_result = some d; ret_group_key = d.key; urlfull = d.urlfull; judge_type = rule },
)

-- The first request stands in for one that the timer made.
unfoldable pub not_timeout : Option Request → Request → Request
not_timeout first d = if is_timeout d then elim first [ none ↦ null_request | some f ↦ f ] else d

unfoldable pub by_time_or_weight : (random : ℕ) → Task → ℕ × Task
by_time_or_weight random t =
    if size t.judge_data_list == t.exec_num
    then elim (time_or_weight_judge random t) [
      | none ↦ (0, t)
      | some d ↦ decide "TIME_OR_WEIGHT" (not_timeout t.first_req_data d) t
    ]
    else (0, t)

-- The two rules, which apply while there is no result.
unfoldable pub by_rules : (random : ℕ) → Task → ℕ × Task
by_rules random t =
    if is_some t.judge_result then (0, t) else elim (majority t.exec_num (values t.judge_group)) [
      | some d ↦ decide "MAJORITY" (not_timeout t.first_req_data d) t
      | none ↦ by_time_or_weight random t
    ]

unfoldable pub judge_data : Comparer → (random : ℕ) → String → Task → ℕ × Task
judge_data c random key t =
    let current = at null_request key t.judge_data_list in
    if (size t.judge_data_list == 1) && (t.exec_num == 1)
    then (1, record t { judge_result = some current })
    else if size t.judge_data_list == 1
    then (0, record t { judge_group = emplace current.ptr (current, key ∷ []) t.judge_group })
    else by_rules random (place_request c key t)
