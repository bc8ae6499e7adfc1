-- ===== src/Proxy/Monitor/Answers/Once.antt =====
-- src/mimic_proxy.cpp: what it is for a handler of the monitor to answer once.
use openstack_mimic_componen.Base.{suc, ◌≡◌, Option, some, length}
use openstack_mimic_componen.Map.{text_key}
use openstack_mimic_componen.Proxy.Monitor.{Desk}

-- The result is there, with one answer more.
abbrev pub AnsweredOnce : Desk → Option Desk → Type 0
AnsweredOnce d o = (d' : Desk) × (o ≡ some d') × (length d'.answers ≡ suc (length d.answers))

abbrev pub OneMore : Desk → Desk → Type 0
OneMore d d' = length d'.answers ≡ suc (length d.answers)
