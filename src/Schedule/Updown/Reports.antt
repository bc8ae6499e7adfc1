-- ===== src/Schedule/Updown/Reports.antt =====
-- src/mimic_schedule.cpp: the reports at the end of doUpdown only write to the trace.
use openstack_mimic_componen.Base.{
  ℕ, ◌≡◌, refl, ap, ◌∙◌, inl, inr, true, String, String_discrete, List, Option, none, if_pos,
  if_neg, Bool-cases,
}
use openstack_mimic_componen.Map.{text_key, has}
use openstack_mimic_componen.Schedule.State.{Scheduler, Effect, emit, exec_at}
use openstack_mimic_componen.Schedule.HostPicks.{change_exec_same}
use openstack_mimic_componen.Schedule.Swaps.{Known}
use openstack_mimic_componen.Schedule.Updown.{
  db_status, update_exec_status_db, sync_exec_log, sync_and_pub, clean_exec, report_down, report_up,
  report_pub, report_updown,
}

-- The state after is the state before, but for the trace.
abbrev pub Traced : Scheduler → Scheduler → Type 0
Traced s t = (tr : List Effect) × (t ≡ record s { trace = tr })

pub Traced-then : (s t u : Scheduler) → Traced s t → Traced t u → Traced s u
Traced-then s t u (ts, p) (us, q) = (us, q ∙ ap (λ (x : Scheduler). record x { trace = us }) p)

pub update_exec_status_db-Traced :
    (addr : String) (s : Scheduler)
    → has addr s.all_exec_list ≡ true
    → Traced s (update_exec_status_db addr s)
unfolding update_exec_status_db
update_exec_status_db-Traced addr s h = (
  _,
  ap
      (λ (t : Scheduler).
        let e = exec_at t addr in emit (Effect.update_db e.ip e.port (db_status e.status)) t)
      (change_exec_same addr s h),
)

pub sync_exec_log-Traced :
    (addr related action status msg : String) (s : Scheduler)
    → has addr s.all_exec_list ≡ true
    → Traced s (sync_exec_log addr related action status msg s)
unfolding sync_exec_log
sync_exec_log-Traced addr related action status msg s h =
    (_, ap (emit (Effect.exec_log addr related action status msg)) (change_exec_same addr s h))

pub sync_and_pub-Traced : (to : Option ℕ) (s : Scheduler) → Traced s (sync_and_pub to s)
unfolding sync_and_pub
sync_and_pub-Traced to s = elim (Bool-cases s.is_first_start) [
  | inl e ↦ rw e (_, refl)
  | inr e ↦ rw e (_, refl)
]

-- What has been read before can be read after.
pub still :
    (addr : String) (s t : Scheduler)
    → Traced s t
    → has addr s.all_exec_list ≡ true
    → has addr t.all_exec_list ≡ true
still addr s t (ts, p) h = rw p h

report_down-Traced :
    (down key action msg : String) (s : Scheduler)
    → Known down s
    → Traced s (report_down down key action msg s)
unfolding report_down
report_down-Traced down key action msg s d = elim (String_discrete down "") [
  | yes p ↦ (s.trace, if_pos (String_discrete down "") p _ _)
  | no p ↦ elim d [
    | inl q ↦ absurd (p q)
    | inr q ↦
        let a = update_exec_status_db-Traced down s q in
        let b =
          sync_exec_log-Traced down key action "OFFLINE" msg (update_exec_status_db down s)
            (still down s _ a q) in
        let c = Traced-then s _ _ a b in
        (_, if_neg (String_discrete down "") p _ _ ∙ ap (clean_exec down) c.1)
  ]
]

report_up-Traced :
    (key down action msg : String) (s : Scheduler)
    → Known key s
    → Traced s (report_up key down action msg s)
unfolding report_up
report_up-Traced key down action msg s d = elim (String_discrete key "") [
  | yes p ↦ (s.trace, if_pos (String_discrete key "") p _ _)
  | no p ↦ elim d [
    | inl q ↦ absurd (p q)
    | inr q ↦
        let a = update_exec_status_db-Traced key s q in
        let b =
          sync_exec_log-Traced key down action "ONLINE" msg (update_exec_status_db key s)
            (still key s _ a q) in
        let c = Traced-then s _ _ a b in (c.0, if_neg (String_discrete key "") p _ _ ∙ c.1)
  ]
]

report_pub-Traced : (down key : String) (s : Scheduler) → Traced s (report_pub down key s)
unfolding report_pub
report_pub-Traced down key s =
    let pub_traced = sync_and_pub-Traced none s in
    elim (String_discrete down "") [
      | yes p ↦ elim (String_discrete key "") [
        | yes q ↦ (
          s.trace,
          if_pos (String_discrete down "") p _ _ ∙ if_pos (String_discrete key "") q _ _,
        )
        | no q ↦ (
          pub_traced.0,
          if_pos (String_discrete down "") p _ _
              ∙ if_neg (String_discrete key "") q _ _
              ∙ pub_traced.1,
        )
      ]
      | no p ↦ (pub_traced.0, if_neg (String_discrete down "") p _ _ ∙ pub_traced.1)
    ]

still_Known : (addr : String) (s t : Scheduler) → Traced s t → Known addr s → Known addr t
still_Known addr s t r (inl p) = inl p
still_Known addr s t r (inr q) = inr (still addr s t r q)

pub report_updown-Traced :
    (down key action msg : String) (s : Scheduler)
    → Known down s
    → Known key s
    → Traced s (report_updown down key action msg s)
unfolding report_updown
report_updown-Traced down key action msg s d k =
    let a = report_down-Traced down key action msg s d in
    let b = report_up-Traced key down action msg _ (still_Known key s _ a k) in
    Traced-then s _ _ (Traced-then s _ _ a b) (report_pub-Traced down key _)
