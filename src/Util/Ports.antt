-- ===== src/Util/Ports.antt =====
-- src/mimic_util.cpp: the maps of ports go forth and back.
use openstack_mimic_componen.Base.{ℕ, ◌≡◌, ◌⊎◌, arith}
use openstack_mimic_componen.Util.{nova_to_cinder, nova_to_neutron, cinder_to_nova, neutron_to_nova}

-- A port of nova that has a port of cinder, or of neutron, is got back from it; every other port is
-- sent to 0.
pub nova_to_cinder-cinder_to_nova :
    (port : ℕ)
    → ((cinder_to_nova (nova_to_cinder port) ≡ port) ⊎ (nova_to_cinder port ≡ 0))
      × ((neutron_to_nova (nova_to_neutron port) ≡ port) ⊎ (nova_to_neutron port ≡ 0))
unfolding nova_to_cinder nova_to_neutron cinder_to_nova neutron_to_nova
nova_to_cinder-cinder_to_nova port = ground arith
