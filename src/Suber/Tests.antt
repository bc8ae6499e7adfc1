-- ===== src/Suber/Tests.antt =====
-- A subscriber for nova after a message of the scheduler.
use openstack_mimic_componen.Base.{◌≡◌, refl, false, [], arith}
use openstack_mimic_componen.Map.{text_key, has, find, values}
use openstack_mimic_componen.Schedule.Tests.{four, four-Consistent}
use openstack_mimic_componen.Suber.{Suber, read_message, init_bool_flag}
use openstack_mimic_componen.Suber.Replicates.{read_message-replicates}

abbrev nova_suber : Suber
nova_suber = record {
  flags = init_bool_flag "judge-controller";
  is_init = false;
  policys = four.policys;
  all_exec_list = [];
  active_exec_list = [];
  restarts = [];
}

read_message-replicates_example :
    (find "10.0.0.1:80"
        (read_message (values four.all_exec_list) four.policys nova_suber).all_exec_list
      ≡ find "10.0.0.1:80" four.all_exec_list)
    × (has "10.0.0.1:80"
          (read_message (values four.all_exec_list) four.policys nova_suber).active_exec_list
        ≡ has "10.0.0.1:80" four.active_exec_list)
    × ((read_message (values four.all_exec_list) four.policys nova_suber).policys ≡ four.policys)
unfolding init_bool_flag
read_message-replicates_example =
    read_message-replicates four nova_suber "10.0.0.1:80" four-Consistent refl (omega arith)
