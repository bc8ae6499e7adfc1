-- ===== src/Util.antt =====
-- src/mimic_util.cpp: the ports of cinder and neutron that stand for a port of nova, and the names of the
-- methods of libevhtp. `relateMap[sport]` of a port that is not in the map is 0.
pub mod Ports
use openstack_mimic_componen.Base.{ℕ, ◌==◌, if◌then◌else◌, String}

unfoldable pub nova_to_cinder : ℕ → ℕ
nova_to_cinder sport =
    if sport == 18774
    then 18776
    else if sport == 28774
    then 28776
    else if sport == 38774
    then 38776
    else 0

unfoldable pub nova_to_neutron : ℕ → ℕ
nova_to_neutron sport =
    if sport == 18774
    then 19696
    else if sport == 28774
    then 29696
    else if sport == 38774
    then 39696
    else 0

unfoldable pub cinder_to_nova : ℕ → ℕ
cinder_to_nova sport =
    if sport == 18776
    then 18774
    else if sport == 28776
    then 28774
    else if sport == 38776
    then 38774
    else 0

unfoldable pub neutron_to_nova : ℕ → ℕ
neutron_to_nova sport =
    if sport == 19696
    then 18774
    else if sport == 29696
    then 28774
    else if sport == 39696
    then 38774
    else 0

unfoldable pub get_method_string : ℕ → String
get_method_string n =
    if n == 0
    then "GET"
    else if n == 1
    then "HEAD"
    else if n == 2
    then "POST"
    else if n == 3
    then "PUT"
    else if n == 4
    then "DELETE"
    else if n == 5
    then "MKCOL"
    else if n == 6
    then "COPY"
    else if n == 7
    then "MOVE"
    else if n == 8
    then "OPTIONS"
    else if n == 9
    then "PROPFIND"
    else if n == 10
    then "PROPPATCH"
    else if n == 11
    then "LOCK"
    else if n == 12
    then "UNLOCK"
    else if n == 13
    then "TRACE"
    else if n == 14
    then "CONNECT,"
    else if n == 15
    then "PATCH"
    else if n == 16
    then "UNKNOWN"
    else "default_methond"
