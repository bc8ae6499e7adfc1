-- ===== src/Schedule/Start/Table.antt =====
-- src/mimic_schedule.cpp: initMysqlAndPub, whose writes leave the two lists alone.
use openstack_mimic_componen.Base.{
  ◌≡◌, refl, true, Bool, ◌==◌, not, if◌then◌else◌, String, List, [], ◌∷◌, length, arith, All,
  if_cases,
}
use openstack_mimic_componen.Base.Int.{eq_ℤ}
use openstack_mimic_componen.Map.{Map, text_key, has, keys}
use openstack_mimic_componen.Map.Order.{All-find}
use openstack_mimic_componen.Schedule.State.{Executor, Scheduler, Effect, offline, cleaning, emit}
use openstack_mimic_componen.Schedule.Lists.{Consistent}
use openstack_mimic_componen.Schedule.Updown.Reports.{Traced, Traced-then, sync_exec_log-Traced}
use openstack_mimic_componen.Schedule.Updown.Main.{up_known}
use openstack_mimic_componen.Schedule.Report.{
  InitAnswers, insert_rows, log_online, publish_init, fill_table, init_mysql_and_pub,
}

-- The table and the publication leave the lists alone, however the database answers.
insert_rows-Traced :
    (answer : String → Bool) (m : Map String Executor) (s : Scheduler)
    → Traced s (insert_rows answer m s).1
unfolding insert_rows
insert_rows-Traced answer [] s = (_, refl)
insert_rows-Traced answer ((addr, e) ∷ m) s =
    let row = Effect.insert_row addr (if eq_ℤ e.status cleaning then offline else e.status) in
    if_cases (λ (r : Bool × Scheduler). Traced s r.1) (answer addr)
      (λ _. Traced-then s (emit row s) _ (_, refl) (insert_rows-Traced answer m (emit row s)))
      (λ _. (_, refl))

log_online-Traced :
    (addrs : List String) (s : Scheduler)
    → All (λ k. has k s.all_exec_list ≡ true) addrs
    → Traced s (log_online addrs s)
unfolding log_online
log_online-Traced [] s h = (_, refl)
log_online-Traced (addr ∷ addrs) s h =
    let (ts, p) = sync_exec_log-Traced addr "" "INITSCHEDULE" "ONLINE" "初始化调度上线" s h.0 in
    rw p (
      Traced-then s (record s { trace = ts }) _ (_, refl)
        (log_online-Traced addrs (record s { trace = ts }) h.1))

publish_init-Traced : (s : Scheduler) → Traced s (publish_init s)
unfolding publish_init
publish_init-Traced s =
    if_cases (Traced s) (length s.subscribe_bevs == 0) (λ _. (_, refl)) (λ _. (_, refl))

fill_table-Traced :
    (a : InitAnswers) (s : Scheduler)
    → All (λ k. has k s.all_exec_list ≡ true) (keys s.active_exec_list)
    → Traced s (fill_table a s).1
unfolding fill_table
fill_table-Traced a s h =
    let (ts, p) = insert_rows-Traced a.insert_ok s.all_exec_list s in
    let t : Scheduler = record s { trace = ts } in
    let logged = log_online-Traced (keys s.active_exec_list) t h in
    let done =
      Traced-then s t _ (_, refl)
        (Traced-then t _ _ logged (publish_init-Traced (log_online (keys s.active_exec_list) t))) in
    if_cases (λ (r : Bool × Scheduler). Traced s r.1) (insert_rows a.insert_ok s.all_exec_list s).0
      (λ _. rw p done) (λ _. (ts, p))

pub init_mysql_and_pub-Traced :
    (a : InitAnswers) (s : Scheduler)
    → All (λ k. has k s.all_exec_list ≡ true) (keys s.active_exec_list)
    → Traced s (init_mysql_and_pub a s).1
unfolding init_mysql_and_pub
init_mysql_and_pub-Traced a s h =
    if_cases (λ (r : Bool × Scheduler). Traced s r.1) (not a.count_ok) (λ _. (_, refl))
      λ _.
        if_cases (λ (r : Bool × Scheduler). Traced s r.1) a.count_zero
          (λ _. fill_table-Traced a s h)
          λ _.
            if_cases (λ (r : Bool × Scheduler). Traced s r.1) a.delete_ok
              (λ _.
                Traced-then s (emit Effect.clear_table s) _ (_, refl)
                  (fill_table-Traced a (emit Effect.clear_table s) h))
              (λ _. (_, refl))

keys-All : (P : String → Type 0) (m : Map String Executor) → All (λ e. P e.0) m → All P (keys m)
keys-All P [] h = tt
keys-All P (e ∷ m) h = (h.0, keys-All P m h.1)

pub up_keys :
    (s : Scheduler)
    → Consistent s
    → All (λ k. has k s.all_exec_list ≡ true) (keys s.active_exec_list)
up_keys s c =
    keys-All (λ k. has k s.all_exec_list ≡ true) s.active_exec_list
      (All-find (λ k _. has k s.all_exec_list ≡ true) s.active_exec_list c.up_distinct
        λ k v e. up_known k s c (ground (arith, e)))
