-- ===== src/Schedule/LeastLoaded.antt =====
-- src/mimic_schedule.cpp: policy_host_random chooses a host with the fewest active executors.
use openstack_mimic_componen.Base.{ℕ, ◌≤◌, ◌<◌, ◌≡◌, ◌⊎◌, String, List, [], ◌∷◌, All, length}
use openstack_mimic_componen.Map.{Map, text_key, at}
use openstack_mimic_componen.Schedule.State.{Executor, Scheduler, Env}
use openstack_mimic_componen.Schedule.Policy.{Outcome, thrown, choose_random}

abbrev pub Counts : Type 0
Counts = List (String × ℕ)

-- Every count is at most those after it.
abbrev pub Ascending : Counts → Type 0
Ascending [] = Unit
Ascending (h ∷ hosts) = All (λ g. h.1 ≤ g.1) hosts × Ascending hosts

-- The entry stands in the list.
abbrev pub IsIn : String × ℕ → Counts → Type 0
IsIn h [] = ⊥
IsIn h (g ∷ hosts) = (h ≡ g) ⊎ IsIn h hosts

-- A host has no ready executor.
abbrev pub NoneReady : Map String (List Executor) → String × ℕ → Type 0
NoneReady ready h = length (at [] h.0 ready) ≡ 0

-- The host that is chosen is listed with `n` active executors and has a ready one, and every host that
-- has a ready one has `n` active executors or more.
abbrev pub Least :
    Env → Map String (List Executor) → String → Scheduler → Counts → Outcome × Scheduler → Type 0
Least env ready down s hosts r =
    (host : String) × (n : ℕ) × IsIn (host, n) hosts
    × (0 < length (at [] host ready))
    × All (λ h. NoneReady ready h ⊎ (n ≤ h.1)) hosts
    × (r ≡ choose_random env (at [] host ready) down s)

abbrev pub LeastOrNone :
    Env → Map String (List Executor) → String → Scheduler → Counts → Outcome × Scheduler → Type 0
LeastOrNone env ready down s hosts r =
    (All (NoneReady ready) hosts × (r ≡ (thrown "cant find suitable exec", s)))
    ⊎ Least env ready down s hosts r
