-- ===== src/Tests/OdfRuns.antt =====
-- The installation of OpenShift Data Foundation, run against a cluster that is ready at once.
use easyshift.Base.{String, refl, none, List, if◌then◌else◌}
use easyshift.Base.Lists.{contains}
use easyshift.Base.Int.{pos}
use easyshift.Base.Text.{trim_space, split_at, cut_at}
use easyshift.Base.Action.{ok, err}
use easyshift.Interfaces.Os.{Files, Clock, missing, absent}
use easyshift.Interfaces.Providers.{CommandRunner, OdfSpec}
use easyshift.Stages.Odf.{phases}
use easyshift.Providers.Odf.{
  oc, oc_do, oc_json_path, apply, any_succeeded, csv_succeeded, poll_loop, poll_rounds, poll_until,
  operators_ready, lvm_ready, single_node_ready, cluster_ready, classes_ready, await_operators,
  await_lvm, await_single_node, await_cluster, await_classes, find_subscription, install_operators,
  setup_lvm, enable_single_node, create_storage_cluster, odf_installer,
}
use easyshift.Providers.Odf.Phases.{Ran, phases-Ran}

abbrev answer : List String → String
answer args =
    if contains args "csv"
    then "lvms-operator.v4.22.0=Succeeded\nocs-operator.v4.22.2=Succeeded\n"
    else if contains args "sub"
    then "ocs-operator-stable"
    else if contains args
        "jsonpath={.spec.template.spec.containers[0].env[?(@.name==\"SINGLE_NODE\")].value}"
    then "true"
    else if contains args "deploy"
    then "True\n"
    else "Ready"

abbrev ready_cluster : CommandRunner (Unit {0})
ready_cluster = record {
  run = λ name args w. (w, ok (answer args));
  run_output = λ name args w. (w, ("", err "unused"));
}

abbrev unit_files : Files (Unit {0})
unit_files = record {
  read_file = λ path s. missing;
  stat = λ path s. absent;
  write_file = λ path text s. (s, ok tt);
  mkdir_all = λ path s. (s, ok tt);
  remove = λ path s. (s, ok tt);
  remove_all = λ path s. (s, ok tt);
}

abbrev stopped_clock : Clock (Unit {0})
stopped_clock = record { now = λ w. 0; wait = λ n w. (w, none) }

abbrev storage_spec : OdfSpec
storage_spec = record {
  kubeconfig_path = "/e/c/auth/kubeconfig";
  oc_binary_path = "/e/bin/oc";
  work_dir = "/e/c";
  channel = "stable-4.22";
  device_path = "/dev/vdb";
  data_pvc_size_gi = pos 97;
}

phases-Ran_example :
    Ran ready_cluster unit_files stopped_clock storage_spec tt
      (phases (odf_installer ready_cluster unit_files stopped_clock) 0 storage_spec tt).0
unfolding phases odf_installer install_operators setup_lvm enable_single_node create_storage_cluster
    find_subscription await_operators await_lvm await_single_node await_cluster await_classes
    operators_ready lvm_ready single_node_ready cluster_ready classes_ready poll_until poll_rounds
    poll_loop csv_succeeded any_succeeded apply oc_json_path oc_do oc trim_space split_at cut_at
phases-Ran_example = phases-Ran ready_cluster unit_files stopped_clock storage_spec 0 tt refl
