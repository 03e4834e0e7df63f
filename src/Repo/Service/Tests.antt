-- ===== src/Repo/Service/Tests.antt =====
-- crates/ndn-repo/src/service.rs: a group that the operator configured, and one joined by a command.
use ndn_repo.Base.{ℕ, ◌≡◌, refl, true, false, none, some, List, [], ◌∷◌, ◌++◌, All, arith}
use ndn_repo.Base.Order.{nat_ord, nat_beq}
use ndn_repo.Collections.Distinct.{contains}
use ndn_repo.Collections.HashMap.{HashMap, upsert, get as map_get}
use ndn_repo.Extern.Concrete.{
  short_tlv, octet_name, listed_store, octet_packet, octet_interest, numbered_names,
}
use ndn_repo.Extern.Tlv.{IsAddressable}
use ndn_repo.Wire.Nni.{nni_bytes, be_bytes}
use ndn_repo.Repo.Cmd.{
  RepoCmd, RepoCmdRes, sync_join, ok, encode, encode_sync_join, encode_threshold,
  name_container_opt, write_nni, encode_res, encode_message, decode_res,
}
use ndn_repo.Repo.Engine.{
  new, with_optional_validator, handle, handle_sync_join, known_protocol, deep_enough,
}
use ndn_repo.Repo.Engine.View.{Implements, promised_status}
use ndn_repo.Repo.Engine.Steps.{opened, opened-Implements}
use ndn_repo.Repo.Service.Answers.{followed, dispatch-answered}
use ndn_repo.Repo.Service.{
  RepoServiceConfig, RepoService, Action, send, Event, inbound, inbound_closed, control_message,
  join, new_service, with_control, emit_register, route_to_group, owning_group, start_group,
}
use ndn_repo.Repo.Service.Demux.{
  start_all, cancel_all, dispatch, dispatch_data, obey, run_loop, run,
}
use ndn_repo.Repo.Service.Tasks.{occ, spawned, stopped}
use ndn_repo.Repo.Service.Settling.{occ-run}
use ndn_repo.Repo.Service.Groups.{NoLeave, Driven, run_loop-Driven}

abbrev no_packets : HashMap ℕ (List ℕ)
no_packets = []

abbrev config : RepoServiceConfig ℕ
config = record {
  node_id = 1 ∷ [];
  response_freshness = 1000;
  initial_groups = 9 ∷ [];
  svs = record { auto_ack = true; serve_all_stored = false };
  two_phase_ingest = true;
}

abbrev service : RepoService ℕ (HashMap ℕ (List ℕ)) ℕ
service = with_control (new_service (new no_packets) 7 config)

-- A packet that is no command, two joins over the control channel, and the end of the stream.
abbrev events : List (Event ℕ)
events =
    inbound (6 ∷ 9 ∷ [])
    ∷ control_message (join 20)
    ∷ control_message (join 20)
    ∷ inbound_closed
    ∷ []

no_groups : service.groups ≡ []
unfolding with_control new_service
no_groups = refl

-- Two tasks are spawned in all.
two_tasks : spawned (run 3 service events) ≡ 0 ∷ 1 ∷ []
unfolding run start_all run_loop dispatch obey start_group emit_register map_get upsert cancel_all
    spawned nat_ord nat_beq with_control new_service new dispatch_data octet_packet route_to_group
    owning_group numbered_names
two_tasks = refl

occ-run_example : occ 1 (spawned (run 3 service events)) ≡ occ 1 (stopped (run 3 service events))
occ-run_example = occ-run 3 service events 1 no_groups

none_leaves : All NoLeave events
none_leaves = (tt, (tt, (tt, (tt, tt))))

service-Driven : Driven service
unfolding with_control new_service new contains with_optional_validator
service-Driven = record { ascending = tt; running = λ g there. cc }

run_loop-Driven_example : Driven (run_loop 3 events service).0
run_loop-Driven_example = run_loop-Driven 3 events service none_leaves service-Driven

-- A command to join the group 6, in an Interest for the prefix of the service.
abbrev join_6 : RepoCmd ℕ
join_6 = sync_join (record {
  protocol = some 3;
  group = some 6;
  multicast_prefix = none;
  history_threshold = some 10;
  security_config = none;
})

join_6-IsAddressable : IsAddressable (encode join_6)
unfolding encode encode_sync_join encode_threshold name_container_opt write_nni nni_bytes be_bytes
    short_tlv octet_name
join_6-IsAddressable = omega arith

service-Implements : Implements service.repo (opened no_packets)
unfolding with_control new_service
service-Implements = opened-Implements 3 no_packets

for_the_repo : numbered_names.has_prefix 7 service.repo_prefix ≡ true
unfolding with_control new_service numbered_names
for_the_repo = refl

reply-IsAddressable : IsAddressable (encode_res (handle 3 service.repo join_6).1)
unfolding handle handle_sync_join known_protocol deep_enough nat_ord nat_beq ok encode_res
    encode_message write_nni nni_bytes be_bytes short_tlv
reply-IsAddressable = omega arith

dispatch-answered_example :
    Implements
      (dispatch 3 service (5 ∷ 7 ∷ encode join_6)).0.repo
      (followed 3 (opened no_packets) join_6)
    × ((acts : List (Action ℕ)) × (body : List ℕ) × (res : RepoCmdRes) × ((dispatch 3 service
            (5 ∷ 7 ∷ encode join_6)).1
          ≡ acts ++ send (octet_packet.build_fresh service.config.response_freshness 7 body) ∷ [])
        × (decode_res body ≡ some res)
        × (res.status ≡ promised_status 3 (opened no_packets) join_6))
unfolding octet_interest
dispatch-answered_example =
    dispatch-answered 3 service (opened no_packets) (7 ∷ encode join_6) (7, encode join_6) join_6
      service-Implements refl for_the_repo refl (omega arith) join_6-IsAddressable
      reply-IsAddressable
