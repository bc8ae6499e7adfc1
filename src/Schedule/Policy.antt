-- ===== src/Schedule/Policy.antt =====
-- src/mimic_schedule.cpp: policy_all_random, policy_weight and policy_host_random, which choose a
-- ready executor, bring it up, and take `downAddr` down. The list of hosts, the groups and the weight
-- ranges are built as the loops of the source build them.
use openstack_mimic_componen.Base.{
  ℕ, ◌+◌, ◌%◌, Bool, ◌&&◌, ◌||◌, String, List, [], ◌∷◌, ◌++◌, none, some, if◌then◌else◌, ltb, leb,
  ◌==◌, length, get_elem?, filter, find?, String_discrete, ite,
}
use openstack_mimic_componen.Map.{
  Map, text_key, number_key, values, size, at, update, erase, emplace,
}
use openstack_mimic_componen.Schedule.State.{
  Executor, Scheduler, Env, addr_of, has_status, set_status, online, active, cleaning, seed_now,
  after_read, change_exec, exec_at,
}

-- What a policy comes back with: the address it returns, the text it throws, or undefined behaviour.
pub data Outcome : Type 0 where
  returned : String → Outcome
  thrown : String → Outcome
  undefined : Outcome

-- The three lines that put an executor online at the time `seed`.
unfoldable pub bring_up : String → ℕ → Scheduler → Scheduler
bring_up key seed s =
    let up : Scheduler =
      change_exec key (λ e. record e { status = active; active_time = seed }) s in
    record up { active_exec_list = emplace key (exec_at up key) up.active_exec_list }

-- `if (downAddr != "") …`: the executor goes to cleaning and leaves the active list.
unfoldable pub take_down : String → Scheduler → Scheduler
take_down down s =
    let gone : Scheduler = change_exec down (set_status cleaning) s in
    ite (String_discrete down "") s
      (record gone { active_exec_list = erase down gone.active_exec_list })

abbrev pub swap_in : String → String → ℕ → Scheduler → Outcome × Scheduler
swap_in key down seed s = (returned key, take_down down (bring_up key seed s))

abbrev pub ready_execs : Scheduler → List Executor
ready_execs s = filter (has_status online) (values s.all_exec_list)

-- The executor at a random index of a list that is not empty.
unfoldable pub choose_random : Env → List Executor → String → Scheduler → Outcome × Scheduler
choose_random env execs down s =
    let seed = seed_now env s in
    elim (get_elem? execs (env.rand seed % length execs)) [
      | none ↦ (undefined, s)
      | some e ↦ swap_in (addr_of e) down seed (after_read s)
    ]

unfoldable pub policy_all_random : Env → String → Scheduler → Outcome × Scheduler
policy_all_random env down s =
    if length (ready_execs s) == 0
    then (thrown "no ready execs left", s)
    else choose_random env (ready_execs s) down s

-- map<weightRange_t, executor_t>: a range is keyed by its start alone, so `emplace` drops a range
-- whose start is there already. An entry is the start, then the end and the executor.
abbrev pub Ranges : Type 0
Ranges = Map ℕ (ℕ × Executor)

unfoldable pub weight_ranges : List Executor → ℕ → Ranges → Ranges
weight_ranges [] start m = m
weight_ranges (e ∷ es) start m =
    weight_ranges es (start + e.scweight) (emplace start (start + e.scweight, e) m)

-- Weights are not negative. The ends of the ranges are sums of the first weights, at most this sum.
unfoldable pub total_weight : List Executor → ℕ
total_weight [] = 0
total_weight (e ∷ es) = e.scweight + total_weight es

abbrev pub in_range : ℕ → ℕ × (ℕ × Executor) → Bool
in_range w (start, (end, e)) = leb start w && ltb w end

abbrev pub int_max : ℕ
int_max = 2147483647

-- The sum of the weights overflows an int, or `rand() % 0` is computed: neither is defined.
unfoldable pub choose_weighted : Env → Ranges → ℕ → String → Scheduler → Outcome × Scheduler
choose_weighted env ranges total down s =
    let seed = seed_now env s in
    if (total == 0) || ltb int_max total
    then (undefined, s)
    else elim (find? (in_range (env.rand seed % total)) ranges) [
      | none ↦ (returned "", after_read s)
      | some (start, (end, e)) ↦ swap_in (addr_of e) down seed (after_read s)
    ]

unfoldable pub policy_weight : Env → String → Scheduler → Outcome × Scheduler
policy_weight env down s =
    let ranges = weight_ranges (ready_execs s) 0 [] in
    if size ranges == 0
    then (thrown "no ready execs left", s)
    else choose_weighted env ranges (total_weight (ready_execs s)) down s

-- The hosts of the active executors, each once.
unfoldable pub used_hosts : List Executor → Map String (Unit {0})
used_hosts [] = []
used_hosts (e ∷ es) =
    let rest = used_hosts es in if has_status active e then emplace e.ip tt rest else rest

-- Executors by host, in the order of the list.
unfoldable pub add_to_group : Executor → Map String (List Executor) → Map String (List Executor)
add_to_group e m = update [] e.ip (λ g. g ++ (e ∷ [])) m

unfoldable pub group_hosts : List Executor → Map String (List Executor) → Map String (List Executor)
group_hosts [] m = m
group_hosts (e ∷ es) m = group_hosts es (add_to_group e m)

abbrev pub all_groups : Scheduler → Map String (List Executor)
all_groups s = group_hosts (values s.all_exec_list) []

abbrev pub ready_groups : Scheduler → Map String (List Executor)
ready_groups s = group_hosts (ready_execs s) []

-- hostUpExecNumList before the sort: each host with the number of its active executors.
unfoldable pub up_counts : Map String (List Executor) → List (String × ℕ)
up_counts [] = []
up_counts ((host, execs) ∷ m) = (host, length (filter (has_status active) execs)) ∷ up_counts m

-- The first host, in the order given, that has a ready executor.
unfoldable pub choose_host :
    Env → List (String × ℕ) → Map String (List Executor) → String → Scheduler → Outcome × Scheduler
choose_host env [] ready down s = (thrown "cant find suitable exec", s)
choose_host env ((host, n) ∷ hosts) ready down s =
    let later = choose_host env hosts ready down s in
    if length (at [] host ready) == 0 then later else choose_random env (at [] host ready) down s

abbrev pub least_loaded : Env → String → Scheduler → Outcome × Scheduler
least_loaded env down s =
    choose_host env (env.sort_hosts (up_counts (all_groups s))) (ready_groups s) down s

-- The reading of `allExecList[downAddr]` makes a missing entry.
unfoldable pub on_same_host : Env → String → Scheduler → Outcome × Scheduler
on_same_host env down s =
    let seen : Scheduler = change_exec down (λ e. e) s in
    let ready = ready_groups s in
    let host = (exec_at seen down).ip in
    if length (at [] host ready) == 0
    then choose_host env (env.sort_hosts (up_counts (all_groups s))) ready down seen
    else choose_random env (at [] host ready) down seen

unfoldable pub policy_host_random : Env → String → Scheduler → Outcome × Scheduler
policy_host_random env down s =
    if size (used_hosts (values s.active_exec_list)) == s.config.exec_num
    then ite (String_discrete down "") (thrown "down addr is empty", s) (on_same_host env down s)
    else least_loaded env down s
