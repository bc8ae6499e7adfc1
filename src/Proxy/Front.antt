-- ===== src/Proxy/Front.antt =====
-- src/mimic_proxy.cpp: allReqCallback, makeSidTask, respToFrontNoProxyError and clearTask. The sid that
-- makeSidTask draws is an argument; what ProxyTask::startTask does is kept as a call.
use openstack_mimic_componen.Base.{
  ℕ, Bool, not, String, List, ◌∷◌, Option, none, some, if◌then◌else◌,
}
use openstack_mimic_componen.Map.{Map, text_key, has, find, emplace, erase}
use openstack_mimic_componen.Suber.{Suber}
use openstack_mimic_componen.Judge.Thread.{is_synced}
use openstack_mimic_componen.Proxy.Monitor.{Desk, MonitorRequest, Libraries, do_manual_opt}

-- A request of a client: its address, its headers, and what the monitor's handlers read of it.
pub record FrontRequest : Type 0 where
  pub req : ℕ
  pub headers : Map String String
  pub monitor : MonitorRequest

pub data FrontCall : Type 0 where
  send_status : (req : ℕ) → (status : ℕ) → FrontCall
  start_task : (sid : String) → (req : ℕ) → FrontCall

-- `proxyTaskList` holds the client's request of each task.
pub record ProxyService : Type 0 where
  pub suber : Suber
  pub is_horizon : Bool
  pub proxy_task_list : Map String ℕ
  pub desk : Desk
  pub calls : List FrontCall

abbrev pub call : FrontCall → ProxyService → ProxyService
call c p = record p { calls = c ∷ p.calls }

-- EVHTP_RES_GWTIMEOUT
unfoldable pub resp_to_front_no_proxy_error : ℕ → ProxyService → ProxyService
resp_to_front_no_proxy_error req p = call (send_status req 504) p

unfoldable pub make_sid_task : (sid : String) → ℕ → ProxyService → ProxyService
make_sid_task sid req p =
    if has sid p.proxy_task_list
    then resp_to_front_no_proxy_error req p
    else call (start_task sid req)
        (record p { proxy_task_list = emplace sid req p.proxy_task_list })

unfoldable pub clear_proxy_task : String → ProxyService → ProxyService
clear_proxy_task sid p = record p { proxy_task_list = erase sid p.proxy_task_list }

unfoldable pub manual_request :
    Libraries → MonitorRequest → String → ProxyService → Option ProxyService
manual_request l r m p = elim (do_manual_opt l r m p.desk) [
  | none ↦ none
  | some d ↦ some (record p { desk = d })
]

-- The requests that horizon treats apart: those of the monitor, and those with a backend, which are
-- left without an answer.
unfoldable pub horizon_request :
    Libraries → (sid : String) → FrontRequest → ProxyService → Option ProxyService
horizon_request l sid r p = elim (find "manual" r.headers) [
  | some m ↦ manual_request l r.monitor m p
  | none ↦ if has "backend" r.headers then some p else some (make_sid_task sid r.req p)
]

-- EVHTP_RES_SERVERR is sent while nothing has come from the scheduler.
unfoldable pub all_req_callback :
    Libraries → (sid : String) → FrontRequest → ProxyService → Option ProxyService
all_req_callback l sid r p =
    if not (is_synced p.suber)
    then some (call (send_status r.req 500) p)
    else if p.is_horizon
    then horizon_request l sid r p
    else some (make_sid_task sid r.req p)
