-- ===== src/Proxy/Convert.antt =====
-- src/mimic_proxy.cpp: convertFromCincerOrNeutron, which gives the scheduler's address of an executor of
-- cinder or neutron. `split` is std::regex_match with "(.*):(.*)" and atoi of the second part.
pub mod Back
use openstack_mimic_componen.Base.{
  ℕ, Bool, String, Option, none, some, if◌then◌else◌, ◌+s◌, to_string,
}
use openstack_mimic_componen.Util.{cinder_to_nova, neutron_to_nova}

unfoldable pub convert_from_cincer_or_neutron :
    (split : String → Option (String × ℕ)) → (is_cinder is_neutron : Bool) → String → String
convert_from_cincer_or_neutron split is_cinder is_neutron saddr = elim (split saddr) [
  | none ↦ saddr
  | some (ip, port) ↦
      if is_cinder
      then ip +s ":" +s to_string (cinder_to_nova port)
      else if is_neutron
      then ip +s ":" +s to_string (neutron_to_nova port)
      else saddr
]
