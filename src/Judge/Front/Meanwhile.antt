-- ===== src/Judge/Front/Meanwhile.antt =====
-- src/mimic_judge.cpp: what may happen to the other clients while one waits for its answer.
use openstack_mimic_componen.Base.{
  ℕ, ◌≡◌, ◌≢◌, refl, ap, ◌∙◌, Bool, true, false, not, String, List, Option, none, some, if_cases,
  arith, includes,
}
use openstack_mimic_componen.Base.Int.{ℤ}
use openstack_mimic_componen.Map.{text_key, number_key, has, at, find, erase}
use openstack_mimic_componen.Map.Laws.{find-emplace, find-erase_ne}
use openstack_mimic_componen.Map.Distinct.{Distinct, emplace-Distinct, erase-Distinct}
use openstack_mimic_componen.Judge.State.{BackendResp}
use openstack_mimic_componen.Judge.Front.{
  Client, Front, Server, is_controller, is_horizon, resp_to_front_no_judge_error, check_req_headers,
  check_mimic_host_and_server_array, next_sn, keep_client, pause_if, init_judge_data,
  all_req_callback, reply_to_client, reply_found, reply_to_front, req_finish_cb,
}

-- A request of another client, whose number is not `sn`, any answer, or the end of a request whose
-- number is not `sn`.
pub data Step (sn : ℕ) (f : Front) : Front → Type 0 where
  asked :
      (servers : String → Option (List Server)) (size : String → ℕ) (ptr replyfd threads : ℕ)
      (written : Bool) (codes : List ℤ) (c : Client)
      → next_sn f.sn ≢ sn
      → Step sn f (all_req_callback servers size ptr replyfd threads written codes c f)
  replied : (resp : BackendResp) (n : ℕ) → Step sn f (reply_to_front resp n f)
  finished : (n : ℕ) → n ≢ sn → Step sn f (req_finish_cb (some n) f)
  unmarked : is_controller f ≡ false → Step sn f (req_finish_cb none f)

pub data Meanwhile (sn : ℕ) (f : Front) : Front → Type 0 where
  at_once : Meanwhile sn f f
  later : {g h : Front} → Meanwhile sn f g → Step sn g h → Meanwhile sn f h

-- The client of the number stays where it is.
pub record Stays (sn : ℕ) (f g : Front) : Type 0 where
  pub same_client : find sn g.front_req_list ≡ find sn f.front_req_list
  pub same_name : g.service_name ≡ f.service_name
  pub distinct : Distinct f.front_req_list → Distinct g.front_req_list

same-Stays : (sn : ℕ) (f : Front) → Stays sn f f
same-Stays sn f = record { same_client = refl; same_name = refl; distinct = λ d. d }

Stays-then : (sn : ℕ) (f g h : Front) → Stays sn f g → Stays sn g h → Stays sn f h
Stays-then sn f g h a b = record {
  same_client = b.same_client ∙ a.same_client;
  same_name = b.same_name ∙ a.same_name;
  distinct = λ d. b.distinct (a.distinct d);
}

refused-Stays : (sn : ℕ) (c : Client) (f : Front) → Stays sn f (resp_to_front_no_judge_error c f)
unfolding resp_to_front_no_judge_error
refused-Stays sn c f =
    if_cases (Stays sn f) (is_controller f) (λ _. same-Stays sn f)
      (λ _. record { same_client = refl; same_name = refl; distinct = λ d. d })

keep_client-Stays :
    (sn : ℕ) (c : Client) (f : Front) → next_sn f.sn ≢ sn → Stays sn f (keep_client c f)
unfolding keep_client
keep_client-Stays sn c f n = record {
  same_client = ground (arith, find-emplace (next_sn f.sn) sn c f.front_req_list, n);
  same_name = refl;
  distinct = λ d. emplace-Distinct (next_sn f.sn) c f.front_req_list d;
}

pause_if-Stays : (sn : ℕ) (b : Bool) (c : Client) (f : Front) → Stays sn f (pause_if b c f)
pause_if-Stays sn true c f = record { same_client = refl; same_name = refl; distinct = λ d. d }
pause_if-Stays sn false c f = same-Stays sn f

erased-Stays :
    (sn n : ℕ) (f : Front)
    → n ≢ sn
    → Stays sn f (record f { front_req_list = erase n f.front_req_list })
erased-Stays sn n f ne = record {
  same_client = find-erase_ne n sn f.front_req_list ne;
  same_name = refl;
  distinct = λ d. erase-Distinct n f.front_req_list d;
}

init_judge_data-Stays :
    (sn ptr replyfd exec_num threads : ℕ) (written : Bool) (codes : List ℤ) (c : Client) (f : Front)
    → next_sn f.sn ≢ sn
    → Stays sn f (init_judge_data ptr replyfd exec_num threads written codes c f)
unfolding init_judge_data
init_judge_data-Stays sn ptr replyfd exec_num threads written codes c f n =
    let kept = pause_if (is_horizon f) c (keep_client c f) in
    let k =
      Stays-then sn f (keep_client c f) kept (keep_client-Stays sn c f n)
        (pause_if-Stays sn (is_horizon f) c (keep_client c f)) in
    let dropped : Front = record kept {
      front_req_list = erase (next_sn f.sn) kept.front_req_list;
    } in
    if_cases (Stays sn f) written
      (λ _. record { same_client = k.same_client; same_name = k.same_name; distinct = k.distinct })
      (λ _. Stays-then sn f kept _ k (
        Stays-then sn kept dropped _ (erased-Stays sn (next_sn f.sn) kept n)
          (refused-Stays sn c dropped)))

reply_to_client-Stays :
    (sn : ℕ) (resp : BackendResp) (c : Client) (f : Front) → Stays sn f (reply_to_client resp c f)
unfolding reply_to_client
reply_to_client-Stays sn resp c f =
    if_cases (Stays sn f) (is_horizon f)
      (λ _. record { same_client = refl; same_name = refl; distinct = λ d. d })
      (λ _. record { same_client = refl; same_name = refl; distinct = λ d. d })

locked-Stays :
    (sn : ℕ) (b : Bool) (f g : Front) → Stays sn f g → Stays sn f (record g { locked = b })
locked-Stays sn b f g k = record {
  same_client = k.same_client;
  same_name = k.same_name;
  distinct = k.distinct;
}

reply_found-Stays :
    (sn : ℕ) (resp : BackendResp) (o : Option Client) (f : Front)
    → Stays sn f (reply_found resp o f)
unfolding reply_found
reply_found-Stays sn resp none f = locked-Stays sn false f f (same-Stays sn f)
reply_found-Stays sn resp (some c) f =
    if_cases (Stays sn f) (not c.is_open) (λ _. locked-Stays sn true f f (same-Stays sn f))
      (λ _. locked-Stays sn false f _ (reply_to_client-Stays sn resp c f))

pub Step-Stays : {sn : ℕ} {f g : Front} → Step sn f g → is_controller f ≡ false → Stays sn f g
unfolding all_req_callback reply_to_front req_finish_cb
Step-Stays {sn} {f} (asked servers size ptr replyfd threads written codes c n) k =
    let array = at "" "Server-Array" c.headers in
    let no = refused-Stays sn c f in
    if_cases (Stays sn f) (not (has "sid" c.headers)) (λ _. no)
      (λ _.
        if_cases (Stays sn f) (not (check_req_headers c.headers)) (λ _. no)
          (λ _.
            if_cases (Stays sn f)
              (not
                (check_mimic_host_and_server_array (servers array) (at "" "Mimic-Host" c.headers)))
              (λ _. no)
              (λ _. init_judge_data-Stays sn ptr replyfd (size array) threads written codes c f n)))
Step-Stays {sn} {f} (replied resp n) k =
    if_cases (Stays sn f) (is_controller f) (λ _. same-Stays sn f)
      (λ _. reply_found-Stays sn resp (find n f.front_req_list) f)
Step-Stays {sn} {f} (finished n ne) k = rw k (erased-Stays sn n f ne)
Step-Stays {sn} {f} (unmarked _) k = rw k (same-Stays sn f)

pub same_controller :
    (f g : Front) → g.service_name ≡ f.service_name → is_controller g ≡ is_controller f
unfolding is_controller
same_controller f g e = ap (λ s. includes s "controller") e

pub Meanwhile-Stays :
    {sn : ℕ} {f g : Front} → Meanwhile sn f g → is_controller f ≡ false → Stays sn f g
Meanwhile-Stays {sn} {f} at_once k = same-Stays sn f
Meanwhile-Stays {sn} {f} (later {g} {h} path step) k =
    let a = Meanwhile-Stays path k in
    Stays-then sn f g h a (Step-Stays step (same_controller f g a.same_name ∙ k))
