-- ===== src/Proxy/Convert/Back.antt =====
-- src/mimic_proxy.cpp and src/mimic_suber.cpp: the address that a proxy reports is the scheduler's.
use openstack_mimic_componen.Base.{
  ℕ, Bool, ◌≡◌, ◌≢◌, inl, inr, ap, ◌∙◌, true, String, Option, some, ◌+s◌, to_string, arith,
}
use openstack_mimic_componen.Schedule.State.{Executor, addr_of}
use openstack_mimic_componen.Util.{nova_to_cinder, cinder_to_nova}
use openstack_mimic_componen.Util.Ports.{nova_to_cinder-cinder_to_nova}
use openstack_mimic_componen.Suber.{Flags, received, convert_to_cincer_or_neutron}
use openstack_mimic_componen.Proxy.Convert.{convert_from_cincer_or_neutron}

port_back : (port : ℕ) → nova_to_cinder port ≢ 0 → cinder_to_nova (nova_to_cinder port) ≡ port
port_back port h = elim (nova_to_cinder-cinder_to_nova port).0 [
  | inl back ↦ back
  | inr unknown ↦ absurd (h unknown)
]

received_port :
    (f : Flags) (e : Executor)
    → f.is_proxy ≡ true
    → f.should_be_convert ≡ true
    → f.is_cinder ≡ true
    → (received f e).port ≡ nova_to_cinder e.port
unfolding received convert_to_cincer_or_neutron
received_port f e p s c = ground (arith, p, s, c)

-- In the proxy of cinder, the address of an executor whose port has a port of cinder is converted, when
-- it is split into its address and its port, to the address of the executor that the scheduler
-- published.
pub convert_from_cincer_or_neutron-received :
    (split : String → Option (String × ℕ)) (f : Flags) (e : Executor) (is_neutron : Bool)
    → f.is_proxy ≡ true
    → f.should_be_convert ≡ true
    → f.is_cinder ≡ true
    → nova_to_cinder e.port ≢ 0
    → split (addr_of (received f e)) ≡ some (e.ip, (received f e).port)
    → convert_from_cincer_or_neutron split true is_neutron (addr_of (received f e)) ≡ addr_of e
unfolding convert_from_cincer_or_neutron addr_of
convert_from_cincer_or_neutron-received split f e is_neutron p s c known h =
    let back : cinder_to_nova (received f e).port ≡ e.port =
      ap cinder_to_nova (received_port f e p s c) ∙ port_back e.port known in
    rw (h, convert_from_cincer_or_neutron) (ap (λ n. e.ip +s ":" +s to_string n) back)
