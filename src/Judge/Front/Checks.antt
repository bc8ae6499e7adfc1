-- ===== src/Judge/Front/Checks.antt =====
-- src/mimic_judge.cpp: which requests of a client are handed to a thread of the judge, and the lock of
-- replyToFront.
use openstack_mimic_componen.Base.{
  if◌then◌else◌, includes, ℕ, ◌≡◌, ◌↔◌, refl, Bool, true, false, not, String, List, [], ◌∷◌, ◌++◌,
  map, Option, none, some, if_cases, arith, All,
}
use openstack_mimic_componen.Base.Int.{ℤ}
use openstack_mimic_componen.Map.{Map, text_key, number_key, has, at, find}
use openstack_mimic_componen.Judge.State.{BackendResp}
use openstack_mimic_componen.Judge.Front.{
  Client, Front, Server, Sending, answered, paused, handed, judge_request, next_sn, is_controller,
  all_req_callback, reply_found, reply_to_front, thread_index,
}

abbrev pub required : List String
required = "sid" ∷ "backend" ∷ "Server-Array" ∷ "msgid" ∷ "Req-Info" ∷ "Mimic-Host" ∷ []

-- Every header that the judge needs is there.
abbrev pub IsComplete : Map String String → Type 0
IsComplete headers = All (λ name. has name headers ≡ true) required

-- The host is in the array, and all before it are objects.
abbrev pub IsIn : String → Option (List Server) → Type 0
IsIn host none = ⊥
IsIn host (some l) =
    (before : List String) × (after : List Server) × (l ≡ map some before ++ (some host ∷ after))

-- What the judge asks of a client's request.
abbrev pub Accepts : (servers : String → Option (List Server)) → Client → Type 0
Accepts servers c =
    IsComplete c.headers
    × IsIn (at "" "Mimic-Host" c.headers) (servers (at "" "Server-Array" c.headers))

-- What has been sent once a client is turned away.
abbrev pub turned_away : Client → Front → List Sending → List Sending
turned_away c f before =
    if includes f.service_name "controller"
    then before
    else answered c.req (("Content-Type", "application/json") ∷ [])
        "{\"request_msg\":\"Gateway Time Out\"}" 504
      ∷ before

module _ (servers : String → Option (List Server)) (size : String → ℕ) (ptr replyfd threads : ℕ)
    (written : Bool) (codes : List ℤ) (c : Client) (f : Front) where
  abbrev array : String
  array = at "" "Server-Array" c.headers

  abbrev host : String
  host = at "" "Mimic-Host" c.headers

  abbrev answer : Front
  answer = all_req_callback servers size ptr replyfd threads written codes c f

  abbrev waiting : List Sending
  waiting = if includes f.service_name "horizon" then paused c.req ∷ f.sendings else f.sendings

  abbrev handing : Sending
  handing =
      handed (thread_index threads codes) (judge_request ptr replyfd (size array) (next_sn f.sn) c)

closed :
    (resp : BackendResp) (o : Option Client) (f : Front)
    → ((reply_found resp o f).locked ≡ true) ↔ ((c : Client) × (o ≡ some c) × (c.is_open ≡ false))
unfolding reply_found
closed resp none f = ((λ h. cc), (λ h. cc (h.1)))
closed resp (some c) f =
    if_cases
      (λ (g : Front). (g.locked ≡ true) ↔ ((e : Client) × (some c ≡ some e) × (e.is_open ≡ false)))
      (not c.is_open) (λ o. ((λ _. (c, refl, ground (arith, o))), (λ _. refl)))
      (λ o. ((λ h. cc), (λ h. ground (arith, o, h.1, h.2))))

-- replyToFront, called with the lock free, returns with the lock held exactly when the service is not
-- the controller's and the client of the number has closed its connection.
pub reply_to_front-locked :
    (resp : BackendResp) (sn : ℕ) (f : Front)
    → f.locked ≡ false
    → ((reply_to_front resp sn f).locked ≡ true) ↔ (
        (is_controller f ≡ false)
        × ((c : Client) × (find sn f.front_req_list ≡ some c) × (c.is_open ≡ false)))
unfolding reply_to_front
reply_to_front-locked resp sn f free =
    let P = (c : Client) × (find sn f.front_req_list ≡ some c) × (c.is_open ≡ false) in
    if_cases (λ (g : Front). (g.locked ≡ true) ↔ ((is_controller f ≡ false) × P)) (is_controller f)
      (λ e. ((λ h. cc), (λ h. cc)))
      (λ e.
        let (there, back) = closed resp (find sn f.front_req_list) f in
        ((λ h. (e, there h)), (λ h. back h.1)))
