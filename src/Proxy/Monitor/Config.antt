-- ===== src/Proxy/Monitor/Config.antt =====
-- src/mimic_proxy.cpp: what a change of the configuration leaves in the table.
use openstack_mimic_componen.Base.{
  Bool, ◌||◌, ◌==◌, All, map, Bool-cases, inl, inr, ◌≡◌, ◌≢◌, refl, sym, subst, ap, ◌∙◌, true,
  false, not, String_discrete, List, [], ◌∷◌, Option, none, some, ite, if_cases, if◌then◌else◌,
  ite_cases, arith,
}
use mathlib.Core.Option
use openstack_mimic_componen.Map.{text_key, find, has}
use openstack_mimic_componen.Map.Distinct.{Distinct}
use Prim.Native.String.{String}
use Prim.Native.Char.{code}
use openstack_mimic_componen.Proxy.Monitor.{
  config_sql, fits, rows_after, config_member, config_turn, config_done, respond, success, Desk,
  Libraries, is_changed, written, config_members, config_policy, config_target, update_config, tell,
}

-- What `UPDATE ... SET conf_value = value WHERE conf_key = key` means.
unfoldable pub set_rows : (key value : String) → List (String × String) → List (String × String)
set_rows key value [] = []
set_rows key value ((k, v) ∷ rows) =
    ite (String_discrete key k) ((k, value) ∷ set_rows key value rows)
      ((k, v) ∷ set_rows key value rows)

find-set_rows :
    (key value k : String) (rows : List (String × String))
    → find k (set_rows key value rows)
      ≡ ite (String_discrete key k) (Option.map (λ _. value) (find k rows)) (find k rows)
unfolding find set_rows
find-set_rows key value k [] = ground arith
find-set_rows key value k ((j, v) ∷ rows) = ground (arith, find-set_rows key value k rows)

-- Where no row differs, setting changes nothing.
is_changed-find :
    (key value : String) (rows : List (String × String))
    → is_changed key value rows ≡ false
    → find key rows ≡ Option.map (λ _. value) (find key rows)
unfolding find is_changed
is_changed-find key value [] h = refl
is_changed-find key value ((j, v) ∷ rows) h = ground (arith, is_changed-find key value rows)

-- The value of a key after a request with these members.
abbrev pub wanted : List (String × String) → String → Option String → Option String
wanted members k old = elim (find k members) [ none ↦ old | some v ↦ Option.map (λ _. v) old ]

wanted-none :
    (members : List (String × String)) (k : String) (old : Option String)
    → find k members ≡ none
    → wanted members k old ≡ old
wanted-none members k old h = rw (h, wanted)

wanted_self :
    (key value : String) (members : List (String × String)) (old : Option String)
    → wanted ((key, value) ∷ members) key old ≡ Option.map (λ _. value) old
unfolding find
wanted_self key value members old = ground arith

wanted_other :
    (key value k : String) (members : List (String × String)) (old : Option String)
    → key ≢ k
    → wanted ((key, value) ∷ members) k old ≡ wanted members k old
unfolding find
wanted_other key value k members old n = ground arith

-- The rows of the members are those that were read.
abbrev Agree : List (String × String) → Desk → List (String × String) → Type 0
Agree members d rows = (j : String) → has j members ≡ true → find j d.config ≡ find j rows

-- The member of a body, as jsoncpp reads it.
abbrev pub read_as : List (String × String) → List (String × Option String)
read_as = map (λ m. (m.0, some m.1))

-- No quote and no backslash.
unfoldable pub is_plain : String → Bool
is_plain String.[] = true
is_plain (String.◌∷◌ c s) =
    let rest = is_plain s in if (code c == 39) || (code c == 92) then false else rest

abbrev pub IsPlain : String × String → Type 0
IsPlain m = (is_plain m.0 ≡ true) × (is_plain m.1 ≡ true)

-- The database carries out the UPDATE of a member with plain texts.
abbrev pub Obeys : Libraries → String × String → Type 0
Obeys l m =
    IsPlain m
    → (rows : List (String × String))
    → l.update (config_sql m.0 m.1) rows ≡ some (set_rows m.0 m.1 rows)

abbrev after_member : Libraries → List (String × String) → (key value : String) → Desk → Desk
after_member l rows key value d =
    if is_changed key value rows
    then tell (config_target key) (update_config key value) (written l (config_sql key value) d)
    else d

-- The desk after all members.
after_members : Libraries → (rows members : List (String × String)) → Desk → Desk
after_members l rows [] d = d
after_members l rows ((key, value) ∷ members) d =
    after_members l rows members (after_member l rows key value d)

abbrev pub Fitting : Libraries → List (String × String) → Type 0
Fitting l = All (λ m. fits l 2048 (config_sql m.0 m.1) ≡ true)

config_turn-after_member :
    (l : Libraries) (rows : List (String × String)) (key value : String) (d : Desk)
    → fits l 2048 (config_sql key value) ≡ true
    → config_turn l rows key (some value) d ≡ some (after_member l rows key value d)
unfolding config_turn config_member
config_turn-after_member l rows key value d h = elim (Bool-cases (is_changed key value rows)) [
  | inl e ↦ rw (e, h) refl
  | inr e ↦ rw e refl
]

config_members-after_members :
    (l : Libraries) (rows members : List (String × String)) (d : Desk)
    → Fitting l members
    → config_members l rows (read_as members) d ≡ some (after_members l rows members d)
unfolding config_members after_members
config_members-after_members l rows [] d h = refl
config_members-after_members l rows ((key, value) ∷ members) d h =
    rw (config_turn-after_member l rows key value d h.0, config_members)
      (config_members-after_members l rows members (after_member l rows key value d) h.1)

module _ (l : Libraries) (rows : List (String × String)) where
  find-after_member :
      (key value : String) (d : Desk)
      → Obeys l (key, value)
      → IsPlain (key, value)
      → find key d.config ≡ find key rows
      → (j : String)
      → find j (after_member l rows key value d).config
        ≡ ite (String_discrete key j) (Option.map (λ _. value) (find j d.config)) (find j d.config)
  find-after_member key value d obeys plain agree j =
      if_cases
        (λ (u : Desk).
          find j u.config
          ≡ ite (String_discrete key j) (Option.map (λ _. value) (find j d.config))
              (find j d.config))
        (is_changed key value rows)
        (λ _.
          ap (λ o. find j (rows_after o d.config)) (obeys plain d.config)
          ∙ find-set_rows key value j d.config)
        (λ n.
          ite_cases (λ o. find j d.config ≡ o) (String_discrete key j)
            (λ e.
              subst (λ i. find i d.config ≡ Option.map (λ _. value) (find i d.config)) e
                (agree
                  ∙ is_changed-find key value rows n
                  ∙ ap (Option.map (λ _. value)) (sym agree)))
            (λ _. refl))

  module _ (key value : String) (d : Desk) (obeys : Obeys l (key, value))
      (plain : IsPlain (key, value)) (agree : find key d.config ≡ find key rows) where
    find-after_member_self :
        find key (after_member l rows key value d).config
        ≡ Option.map (λ _. value) (find key d.config)
    find-after_member_self = ground (arith, find-after_member key value d obeys plain agree key)

    find-after_member_ne :
        (j : String) → key ≢ j → find j (after_member l rows key value d).config ≡ find j d.config
    find-after_member_ne j n = ground (arith, find-after_member key value d obeys plain agree j, n)

  find-after_members :
      (members : List (String × String)) (d : Desk)
      → All (Obeys l) members
      → All IsPlain members
      → Distinct members
      → Agree members d rows
      → (k : String)
      → find k (after_members l rows members d).config ≡ wanted members k (find k d.config)
  unfolding after_members find
  find-after_members [] d obeys plain distinct agree k = refl
  find-after_members ((key, value) ∷ members) d obeys plain distinct agree k =
      let u = after_member l rows key value d in
      let first = agree key (ground arith) in
      let other = find-after_member_ne key value d obeys.0 plain.0 first in
      let rest =
        find-after_members members u obeys.1 plain.1 distinct.1
          (λ j h. other j (λ e. cc (h, distinct.0, e)) ∙ agree j (ground (arith, h))) k in
      rest ∙ elim (String_discrete key k) [
        | yes e ↦
            subst
              (λ i.
                wanted members i (find i u.config)
                ≡ wanted ((key, value) ∷ members) i (find i d.config))
              e
              (wanted-none members key (find key u.config) distinct.0
                ∙ find-after_member_self key value d obeys.0 plain.0 first
                ∙ sym (wanted_self key value members (find key d.config)))
        | no n ↦
            ap (wanted members k) (other k n)
            ∙ sym (wanted_other key value k members (find k d.config) n)
      ]

-- A change of the configuration by the monitor, whose members are texts of different names, without
-- quotes and backslashes, that fit into the buffer of a statement, is answered with success, and every
-- key of the table has the value that the request gives it, and every other key has the value that it
-- had; no key is made. The database is read, and carries out the UPDATE of every such member.
pub config_policy-find :
    (l : Libraries) (members : List (String × String)) (d : Desk)
    → l.reads ≡ true
    → All (Obeys l) members
    → All IsPlain members
    → Fitting l members
    → Distinct members
    → (d' : Desk) × (config_policy l (some (read_as members)) d ≡ some (respond success d'))
      × ((k : String) → find k d'.config ≡ wanted members k (find k d.config))
unfolding config_policy config_done
config_policy-find l members d reads obeys plain fitting distinct = (
  after_members l d.config members d,
  if_cases (λ o. o ≡ some (respond success (after_members l d.config members d))) (not l.reads)
      (λ n. absurd (ground (arith, n, reads)))
      (λ _. ap config_done (config_members-after_members l d.config members d fitting)),
  find-after_members l d.config members d obeys plain distinct (λ j h. refl),
)
