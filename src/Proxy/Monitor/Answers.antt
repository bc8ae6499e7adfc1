-- ===== src/Proxy/Monitor/Answers.antt =====
-- src/mimic_proxy.cpp: every request of the monitor is answered exactly once.
pub mod Once
pub mod Weights
use openstack_mimic_componen.Base.{◌≡◌, true, String, List, Option, some, All, arith, is_some}
use openstack_mimic_componen.Base.Int.{ℤ, pos, eq_ℤ}
use openstack_mimic_componen.Map.{text_key, find, has}
use openstack_mimic_componen.Map.Laws.{find-update}
use openstack_mimic_componen.Proxy.Monitor.{
  Target, nowhere, update_scweight, Desk, Libraries, ExecWeight, config_sql, fits, weight_target,
  table_of, weight_query, weight_sql, set_weight, Turn, go_on, stop, undefined, weight_row,
  weight_at, weight_turn, exec_turn, scweight_each, switch_sql, tell,
}
use openstack_mimic_componen.Proxy.Monitor.Answers.Once.{AnsweredOnce, OneMore}

-- A handler that had no result before has one now.
one_more : (d d' : Desk) (o : Option Desk) → o ≡ some d' → OneMore d d' → AnsweredOnce d o
one_more d d' o e n = (d', e, n)

-- What jsoncpp reads of the only element of an opt_list.
abbrev pub OptsAreRead : Libraries → String → Type 0
OptsAreRead l text =
    (opts : List (Option String × Option String)) × (l.opt_list text ≡ some opts)
    × All (λ o. (is_some o.0 ≡ true) × (is_some o.1 ≡ true)) opts

-- The members are read, and their statements fit.
abbrev pub Writable : Libraries → String × Option String → Type 0
Writable l m = (value : String) × (m.1 ≡ some value) × (fits l 2048 (config_sql m.0 value) ≡ true)

abbrev pub MembersAreRead : Libraries → String → Type 0
MembersAreRead l text =
    (members : List (String × Option String)) × (l.members text ≡ some members)
    × All (Writable l) members

-- The result is there, with the answers as they were.
abbrev Quiet : Desk → Option Desk → Type 0
Quiet d o = (u : Desk) × (o ≡ some u) × (u.answers ≡ d.answers)

abbrev pub SwitchIsRead : Libraries → String → Type 0
SwitchIsRead l text =
    (value : String) × (l.mimic_switch text ≡ some value) × (fits l 2048 (switch_sql value) ≡ true)
