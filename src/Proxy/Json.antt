-- ===== src/Proxy/Json.antt =====
-- src/proxy_task.cpp: flatJson and comJsonBody. A value of jsoncpp is its type, and for a scalar the
-- text that `asString` gives; jsoncpp's parser and MimicUtil::isNumber, which asks std::istringstream
-- for a double, are parameters.
pub mod Bodies
mod Tests
use openstack_mimic_componen.Base.{
  ℕ, zero, suc, Bool, true, false, ◌&&◌, ◌||◌, String, String_discrete, List, [], ◌∷◌, ◌++◌, Option,
  none, some, if◌then◌else◌, ite, any, length, ◌==◌, text_lt, ◌+s◌, to_string,
}
use Prim.Native.String.{compare}
use Prim.Native.Nat.{Ordering}
use openstack_mimic_componen.Proxy.State.{JudgeData}
use openstack_mimic_componen.Proxy.Compare.{Comparer}

mutual
  pub data Json : Type 0 where
    -- null, the numbers, texts and Booleans: types 0 to 5
    scalar : (type : ℕ) (text : String) → Json
    array : Items → Json
    object : Members → Json

  pub data Items : Type 0 where
    nil : Items
    item : Json → Items → Items

  pub data Members : Type 0 where
    end : Members
    member : String → Json → Members → Members

-- The key of an entry: the name in an object, the index in an array.
pub data Key : Type 0 where
  name : String → Key
  index : ℕ → Key

unfoldable pub key_text : Key → String
key_text (name s) = s
key_text (index n) = to_string n

abbrev pub numeric : Key → Bool
numeric (name s) = false
numeric (index n) = true

abbrev pub is_blank : String → Bool
is_blank s = ite (String_discrete s "") true false

-- `key.size() ? key + "->" + name : name`
unfoldable pub joined : (key entry : String) → String
joined key entry = if is_blank key then entry else key +s "->" +s entry

unfoldable pub ignored : (ignore_keys : List String) → (key : String) → Key → Bool
ignored ignore_keys key k =
    any (λ i. ite (String_discrete i (key_text k)) true false) ignore_keys
    || any
        (λ i.
          ite (String_discrete i (if numeric k then "\u{8}" else joined key (key_text k))) true
            false)
        ignore_keys

-- The key and the types with which an object that is an entry is walked through.
unfoldable pub object_key : String → Key → String
object_key key k = if numeric k then "" else joined key (key_text k)

unfoldable pub object_type : String → Key → String
object_type t k = (if is_blank t then if numeric k then "67" else "7|7" else t +s "7") +s "|"

-- Those with which an element of an array that is an entry is walked through.
unfoldable pub element_key : String → Key → String
element_key key k =
    if is_blank key then key_text k else if numeric k then key else key +s "->" +s key_text k

unfoldable pub element_object_type : String → Key → String
element_object_type t k =
    (if is_blank t then if numeric k then "6|6|7" else "7|67" else t +s "67") +s "|"

unfoldable pub element_array_type : String → Key → String
element_array_type t k = if is_blank t then if numeric k then "666" else "766" else t +s "66"

-- The text of a scalar that is an element of an array that is an entry.
unfoldable pub element_text :
    (is_number : String → Bool) → (key t : String) → Key → (type : ℕ) → String → String
element_text is_number key t k type text =
    (if numeric k
      then if is_number key || is_blank key then "" else key +s ":"
      else joined key (key_text k) +s ":")
    +s text
    +s "@"
    +s (if is_blank t
        then (if numeric k then "66|" else "76|") +s to_string type
        else t +s "6|" +s to_string type)

-- The text of a scalar that is an entry.
unfoldable pub scalar_text :
    (is_number : String → Bool) → (key t : String) → Key → (type : ℕ) → String → String
scalar_text is_number key t k type text =
    (if is_number key then "" else key)
    +s (if numeric k then "" else if is_blank key then key_text k else "->" +s key_text k)
    +s (if is_number (key_text k) then if is_number key || is_blank key then "" else ":" else ":")
    +s text
    +s "@"
    +s (if is_blank t
        then (if is_number (key_text k) then "6" else "7") +s "|" +s to_string type
        else t +s (if numeric k then "|" else "") +s to_string type)

-- flatJson: the texts of the scalars, in the order in which they are pushed.
module _ (is_number : String → Bool) (ignore_keys : List String) where
  unfoldable mutual
    pub flat_json : (key t : String) → Json → List String
    flat_json key t (scalar n s) = []
    flat_json key t (array is) = flat_items key t zero is
    flat_json key t (object ms) = flat_members key t ms

    pub flat_items : (key t : String) → ℕ → Items → List String
    flat_items key t n nil = []
    flat_items key t n (item j is) =
        let here = flat_entry key t (index n) j in
        let rest = flat_items key t (suc n) is in
        if ignored ignore_keys key (index n) then rest else here ++ rest

    pub flat_members : (key t : String) → Members → List String
    flat_members key t end = []
    flat_members key t (member s j ms) =
        let here = flat_entry key t (name s) j in
        let rest = flat_members key t ms in
        if ignored ignore_keys key (name s) then rest else here ++ rest

    pub flat_entry : (key t : String) → Key → Json → List String
    flat_entry key t k (scalar n s) = scalar_text is_number key t k n s ∷ []
    flat_entry key t k (array is) = flat_elements key t k is
    flat_entry key t k (object ms) = flat_members (object_key key k) (object_type t k) ms

    pub flat_elements : (key t : String) → Key → Items → List String
    flat_elements key t k nil = []
    flat_elements key t k (item j is) = flat_element key t k j ++ flat_elements key t k is

    pub flat_element : (key t : String) → Key → Json → List String
    flat_element key t k (scalar n s) = element_text is_number key t k n s ∷ []
    flat_element key t k (array is) =
        flat_items (element_key key k) (element_array_type t k) zero is
    flat_element key t k (object ms) = flat_members (element_key key k) (element_object_type t k) ms

-- std::sort on texts.
unfoldable pub insert_text : String → List String → List String
insert_text s [] = s ∷ []
insert_text s (t ∷ ts) = let rest = insert_text s ts in if text_lt t s then t ∷ rest else s ∷ t ∷ ts

unfoldable pub sort_texts : List String → List String
sort_texts [] = []
sort_texts (s ∷ ss) = insert_text s (sort_texts ss)

-- std::set_difference: `skip_to` looks for `s`, and goes on with `rest`.
unfoldable pub skip_to : String → (List String → List String) → List String → List String
skip_to s rest [] = s ∷ rest []
skip_to s rest (t ∷ ts) =
    let later = skip_to s rest ts in
    elim (compare s t) [
      | Ordering.lt ↦ s ∷ rest (t ∷ ts)
      | Ordering.eq ↦ rest ts
      | Ordering.gt ↦ later
    ]

unfoldable pub set_difference : List String → List String → List String
set_difference [] = λ ts. []
set_difference (s ∷ ss) = skip_to s (set_difference ss)

abbrev pub is_empty : List String → Bool
is_empty l = length l == 0

-- The verdict on the texts of two values.
unfoldable pub compare_flat : (group com_flat : List String) → ℕ
compare_flat group com_flat =
    if (length group == length com_flat)
      && is_empty (set_difference (sort_texts group) (sort_texts com_flat))
      && is_empty (set_difference (sort_texts com_flat) (sort_texts group))
    then 100
    else 0

-- What is asked of jsoncpp, the ignored keys of the configuration, and isNumber.
pub record JsonReader : Type 0 where
  pub parse : String → Option Json
  pub is_number : String → Bool
  pub ignore_keys : List String

abbrev pub flatten : JsonReader → Json → List String
flatten r = flat_json r.is_number r.ignore_keys "" ""

unfoldable pub com_json_body : JsonReader → String → String → ℕ
com_json_body r group_body com_body = elim (r.parse group_body) [
  | none ↦ 99
  | some g ↦ elim (r.parse com_body) [
    | none ↦ 99
    | some c ↦ compare_flat (flatten r g) (flatten r c)
  ]
]

-- The comparison of the program, with the text of a difference as a parameter.
abbrev pub json_comparer : JsonReader → (String → JudgeData → JudgeData → String) → Comparer
json_comparer r detail = record { com_json_body = com_json_body r; error_detail = detail }
