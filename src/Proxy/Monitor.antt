-- ===== src/Proxy/Monitor.antt =====
-- src/mimic_proxy.cpp: doManualOpt and its handlers, the requests of the monitor to the proxy of
-- horizon. What jsoncpp reads of a body, std::regex_match with "(.*):(.*)", what the database does with
-- an UPDATE and the rows that a LIKE selects are parameters. `none` stands where the source has no
-- defined result: std::string of a null pointer, the first row of an empty answer, an exception of
-- jsoncpp that nothing catches, and a statement longer than the buffer that sprintf writes it to.
pub mod Answers
pub mod Config
mod Tests
use openstack_mimic_componen.Base.{
  suc, to_string, ltb, ℕ, Bool, true, false, not, ◌&&◌, String, String_discrete, List, [], ◌∷◌,
  Option, none, some, if◌then◌else◌, ite, ◌==◌, ◌+s◌, includes, any, map, filter,
}
use openstack_mimic_componen.Base.Int.{ℤ, pos, negsuc, eq_ℤ}
use openstack_mimic_componen.Map.{Map, text_key, find, at, update}

-- A scheduler; `nowhere` is the empty address.
pub data Target : Type 0 where
  horizon : Target
  controller : Target
  keystone : Target
  nowhere : Target

-- An element of a request of weights. A part is `none` when jsoncpp throws as it is read.
abbrev pub ExecWeight : Type 0
ExecWeight = Option String × Option ℤ

pub data Message : Type 0 where
  manual : (opt : String) → (addr : String) → Message
  update_config : (key : String) → (value : String) → Message
  update_scweight : List ExecWeight → Message

pub data Answer : Type 0 where
  invalid_manual : Answer
  success : Answer
  config_data : Map String String → Answer

-- The rows of `configurable_mimic_config`, the weights of the executors by their addresses, what was
-- sent to the schedulers and what the monitor was answered, newest first.
pub record Desk : Type 0 where
  pub config : List (String × String)
  pub weights : Map String ℤ
  pub messages : List (Target × Message)
  pub answers : List Answer

-- The request, with its header under both spellings.
pub record MonitorRequest : Type 0 where
  pub content_type_lower : Option String
  pub content_type : Option String
  pub body : Option String

-- The libraries. What jsoncpp reads of a body, or of a part of it, is
-- `none` when it throws. `update` is what the database
-- makes of the rows of the configuration by a statement, `none` when it fails, and `updates` whether it
-- carries out one on the table of executors.
pub record Libraries : Type 0 where
  pub opt_list : String → Option (List (Option String × Option String))
  pub members : String → Option (List (String × Option String))
  pub execs : String → Option (List ExecWeight)
  pub mimic_switch : String → Option String
  pub split : String → Option (String × String)
  pub size : String → ℕ
  pub like : String → String → Bool
  pub reads : Bool
  pub update : String → List (String × String) → Option (List (String × String))
  pub updates : String → Bool

abbrev pub respond : Answer → Desk → Desk
respond a d = record d { answers = a ∷ d.answers }

abbrev pub tell : Target → Message → Desk → Desk
tell t m d = record d { messages = (t, m) ∷ d.messages }

-- The header under both spellings, and the body.
unfoldable pub checked :
    (lower upper body : Option String) → (String → Desk → Option Desk) → Desk → Option Desk
checked none upper body k d = none
checked (some a) none body k d = none
checked (some a) (some b) none k d =
    if not (includes a "json") && not (includes b "json")
    then some (respond invalid_manual d)
    else none
checked (some a) (some b) (some text) k d =
    if not (includes a "json") && not (includes b "json")
    then some (respond invalid_manual d)
    else k text d

-- What the four handlers that read a body begin with.
unfoldable pub with_body : MonitorRequest → (String → Desk → Option Desk) → Desk → Option Desk
with_body r = checked r.content_type_lower r.content_type r.body

-- The port of nova that stands for one of cinder or neutron.
unfoldable pub nova_port : String → String
nova_port port = ite (String_discrete port "18776") "18774" (
    ite (String_discrete port "28776") "28774" (
      ite (String_discrete port "38776") "38774" (
        ite (String_discrete port "19696") "18774" (
          ite (String_discrete port "29696") "28774"
            (ite (String_discrete port "39696") "38774" port)))))

-- The last test that holds decides.
unfoldable pub manual_target : String → Target
manual_target addr =
    if includes addr "388"
    then horizon
    else if includes addr "5000"
    then keystone
    else if includes addr "8774"
    then controller
    else nowhere

unfoldable pub manual_opt : Option (String × String) → (opt : String) → Desk → Desk
manual_opt none opt d = respond invalid_manual d
manual_opt (some (ip, port)) opt d =
    let addr = ip +s ":" +s nova_port port in
    respond success (tell (manual_target addr) (manual opt addr) d)

unfoldable pub one_opt : Libraries → Option String × Option String → Desk → Option Desk
one_opt l (none, opt) d = none
one_opt l (some addr, none) d = none
one_opt l (some addr, some opt) d = some (manual_opt (l.split addr) opt d)

unfoldable pub only_opt : Libraries → List (Option String × Option String) → Desk → Option Desk
only_opt l [] d = some (respond invalid_manual d)
only_opt l (o ∷ []) d = one_opt l o d
only_opt l (a ∷ b ∷ opts) d = some (respond invalid_manual d)

unfoldable pub exec_manual :
    Libraries → Option (List (Option String × Option String)) → Desk → Option Desk
exec_manual l none d = none
exec_manual l (some opts) d = only_opt l opts d

unfoldable pub deal_monitor_exec_manual : Libraries → MonitorRequest → Desk → Option Desk
deal_monitor_exec_manual l r d = with_body r (λ text d'. exec_manual l (l.opt_list text) d') d

abbrev pub same_key : String → String × String → Bool
same_key key row = ite (String_discrete row.0 key) true false

-- Whether a row of the key has another value.
unfoldable pub is_changed : (key value : String) → List (String × String) → Bool
is_changed key value rows =
    any
      (λ row. ite (String_discrete row.0 key) (ite (String_discrete row.1 value) false true) false)
      rows

abbrev pub config_sql : (key value : String) → String
config_sql key value =
    "UPDATE `configurable_mimic_config` SET `conf_value`='" +s value +s "' WHERE `conf_key`='"
    +s key +s "';"

unfoldable pub config_target : String → Target
config_target key =
    if includes key "_h" then horizon else if includes key "_n" then controller else keystone

-- sprintf, with the zero at the end, into a buffer of this many bytes.
abbrev pub fits : Libraries → (bytes : ℕ) → String → Bool
fits l bytes sql = ltb (l.size sql) bytes

abbrev pub rows_after :
    Option (List (String × String)) → List (String × String) → List (String × String)
rows_after none rows = rows
rows_after (some rows) old = rows

-- The database carries out a statement, or leaves the rows as they are.
abbrev pub written : Libraries → (sql : String) → Desk → Desk
written l sql d = record d { config = rows_after (l.update sql d.config) d.config }

unfoldable pub config_member : Libraries → (key value : String) → Desk → Option Desk
config_member l key value d =
    if fits l 2048 (config_sql key value)
    then some
        (tell (config_target key) (update_config key value) (written l (config_sql key value) d))
    else none

-- A member whose name is a key of the table.
unfoldable pub config_turn :
    Libraries
    → (rows : List (String × String)) → (key : String) → Option String
    → Desk
    → Option Desk
config_turn l rows key none d = if any (same_key key) rows then none else some d
config_turn l rows key (some value) d =
    if is_changed key value rows then config_member l key value d else some d

-- The loop over the members of the body, against the rows as they were read.
unfoldable pub config_members :
    Libraries
    → (rows : List (String × String)) (members : List (String × Option String)) → Desk
    → Option Desk
config_members l rows [] d = some d
config_members l rows ((key, value) ∷ members) d = elim (config_turn l rows key value d) [
  | none ↦ none
  | some d' ↦ config_members l rows members d'
]

unfoldable pub config_done : Option Desk → Option Desk
config_done none = none
config_done (some d) = some (respond success d)

unfoldable pub config_policy :
    Libraries → Option (List (String × Option String)) → Desk → Option Desk
config_policy l members d =
    if not l.reads
    then some (respond invalid_manual d)
    else elim members [ none ↦ none | some m ↦ config_done (config_members l d.config m d) ]

unfoldable pub deal_monitor_config_policy : Libraries → MonitorRequest → Desk → Option Desk
deal_monitor_config_policy l r d = with_body r (λ text d'. config_policy l (l.members text) d') d

unfoldable pub weight_target : String → Target
weight_target port =
    if includes port "388"
    then horizon
    else if includes port "8774"
    then controller
    else if includes port "5000"
    then keystone
    else nowhere

abbrev pub table_of : Target → String
table_of horizon = "exec_status_info"
table_of controller = "exec_status_info_n"
table_of keystone = "exec_status_info_k"
table_of nowhere = ""

abbrev pub weight_query : (table ip port : String) → String
weight_query table ip port =
    "SELECT `scweight` FROM `" +s table +s "` WHERE `ip`='" +s ip +s "' AND `port`='" +s port
    +s "';"

unfoldable pub int_text : ℤ → String
int_text (pos n) = to_string n
int_text (negsuc n) = "-" +s to_string (suc n)

abbrev pub weight_sql : (table ip port : String) → ℤ → String
weight_sql table ip port weight =
    "UPDATE `"
    +s table
    +s "` SET `scweight`='"
    +s int_text weight
    +s "' WHERE `ip`='"
    +s ip
    +s "' AND `port`='"
    +s port
    +s "';"

-- What becomes of one executor of the request: the desk to go on with, or the end of the loop.
pub data Turn : Type 0 where
  go_on : Desk → Turn
  stop : Turn
  undefined : Turn

-- The weight of one executor. `all` is the whole request, which is passed on.
unfoldable pub set_weight :
    Libraries → (all : List ExecWeight) (addr sql : String) (weight old : ℤ) → Target → Desk → Turn
set_weight l all addr sql weight old t d =
    if eq_ℤ old weight
    then go_on d
    else if fits l 5096 sql
    then go_on (
        tell t (update_scweight all) (
          if l.updates sql
          then record d { weights = update (pos 0) addr (λ _. weight) d.weights }
          else d))
    else undefined

unfoldable pub weight_row : Option ℤ → (ℤ → Turn) → Turn
weight_row none k = undefined
weight_row (some old) k = k old

unfoldable pub weight_at :
    Libraries → (all : List ExecWeight) (addr ip port : String) (weight : ℤ) → Target → Desk → Turn
weight_at l all addr ip port weight nowhere d = stop
weight_at l all addr ip port weight t d =
    if not (fits l 5096 (weight_query (table_of t) ip port))
    then undefined
    else if not l.reads
    then stop
    else weight_row (find addr d.weights)
        (λ old. set_weight l all addr (weight_sql (table_of t) ip port weight) weight old t d)

unfoldable pub weight_turn :
    Libraries
    → (all : List ExecWeight) → (addr : String) → Option (String × String)
    → Option ℤ
    → Desk
    → Turn
weight_turn l all addr none weight d = stop
weight_turn l all addr (some (ip, port)) none d = undefined
weight_turn l all addr (some (ip, port)) (some weight) d =
    weight_at l all addr ip port weight (weight_target port) d

unfoldable pub exec_turn : Libraries → (all : List ExecWeight) → ExecWeight → Desk → Turn
exec_turn l all (none, weight) d = undefined
exec_turn l all (some addr, weight) d = weight_turn l all addr (l.split addr) weight d

unfoldable pub scweight_each : Libraries → (all execs : List ExecWeight) → Desk → Option Desk
scweight_each l all [] d = some (respond success d)
scweight_each l all (e ∷ execs) d = elim (exec_turn l all e d) [
  | go_on d' ↦ scweight_each l all execs d'
  | stop ↦ some (respond invalid_manual d)
  | undefined ↦ none
]

unfoldable pub config_scweight : Libraries → Option (List ExecWeight) → Desk → Option Desk
config_scweight l none d = none
config_scweight l (some execs) d = scweight_each l execs execs d

unfoldable pub deal_monitor_config_scweight : Libraries → MonitorRequest → Desk → Option Desk
deal_monitor_config_scweight l r d = with_body r (λ text d'. config_scweight l (l.execs text) d') d

-- `value[key] = conf_value` for each row.
unfoldable pub collect : List (String × String) → Map String String → Map String String
collect [] m = m
collect ((k, v) ∷ rows) m = collect rows (update "" k (λ _. v) m)

-- The handlers of get_horizon_policy, get_nova_policy, get_keystone_policy and get_mimic_switch, which
-- differ in the rows that they select.
unfoldable pub get_config : Libraries → (pattern : String) → Desk → Desk
get_config l pattern d =
    if not l.reads
    then respond invalid_manual d
    else respond (config_data (collect (filter (λ row. l.like pattern row.0) d.config) [])) d

abbrev pub switch_sql : String → String
switch_sql value =
    "UPDATE `configurable_mimic_config` SET `conf_value`='" +s value
    +s "' WHERE `conf_key`='mimic_switch';"

unfoldable pub config_mimic_switch : Libraries → Option String → Desk → Option Desk
config_mimic_switch l none d = none
config_mimic_switch l (some value) d =
    let m = update_config "mimic_switch" value in
    if fits l 2048 (switch_sql value)
    then some (
        respond success
          (tell keystone m (tell controller m (tell horizon m (written l (switch_sql value) d)))))
    else none

unfoldable pub deal_config_mimic_switch : Libraries → MonitorRequest → Desk → Option Desk
deal_config_mimic_switch l r d =
    with_body r (λ text d'. config_mimic_switch l (l.mimic_switch text) d') d

unfoldable pub do_manual_opt : Libraries → MonitorRequest → (manual : String) → Desk → Option Desk
do_manual_opt l r m d = ite (String_discrete m "manual") (deal_monitor_exec_manual l r d) (
    ite (String_discrete m "config_policy") (deal_monitor_config_policy l r d) (
      ite (String_discrete m "config_scweight") (deal_monitor_config_scweight l r d) (
        ite (String_discrete m "get_horizon_policy") (some (get_config l "%_h" d)) (
          ite (String_discrete m "get_nova_policy") (some (get_config l "%_n" d)) (
            ite (String_discrete m "get_keystone_policy") (some (get_config l "%_k" d)) (
              ite (String_discrete m "config_mimic_switch") (deal_config_mimic_switch l r d) (
                ite (String_discrete m "get_mimic_switch") (some (get_config l "mimic_switch" d))
                  (some (respond invalid_manual d)))))))))
