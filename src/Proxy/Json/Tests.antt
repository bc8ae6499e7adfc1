-- ===== src/Proxy/Json/Tests.antt =====
-- Bodies that differ in the order of an array, and in a key that is ignored.
use openstack_mimic_componen.Base.{
  ◌≡◌, refl, false, String, String_discrete, [], ◌∷◌, some, ite, to_string,
}
use openstack_mimic_componen.Proxy.Json.{
  Json, scalar, array, object, nil, item, end, member, JsonReader, com_json_body, compare_flat,
  set_difference, skip_to, sort_texts, insert_text, flat_json, ignored, scalar_text, element_text,
  joined, key_text,
}

-- {"id": first, "ports": [80, 443]}, with the ports in the order given.
abbrev test_body : String → String → String → Json
test_body first p q = object (
    member "id" (scalar 4 first)
      (member "ports" (array (item (scalar 1 p) (item (scalar 1 q) nil))) end))

abbrev test_reader : JsonReader
test_reader = record {
  parse = λ b.
      ite (String_discrete b "one") (some (test_body "x" "80" "443"))
        (some (test_body "y" "443" "80"));
  is_number = λ s. false;
  ignore_keys = "id" ∷ [];
}

same_bodies : com_json_body test_reader "one" "two" ≡ 100
unfolding com_json_body compare_flat set_difference skip_to sort_texts insert_text flat_json ignored
    scalar_text element_text joined key_text String_discrete to_string
same_bodies = refl
