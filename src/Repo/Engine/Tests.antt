-- ===== src/Repo/Engine/Tests.antt =====
-- crates/ndn-repo/src/repo.rs: joining, pushing a packet and asking for another, over the wire.
use ndn_repo.Base.{ℕ, ◌≡◌, ◌≢◌, refl, not, ◌&&◌, none, some, List, [], ◌∷◌, arith}
use ndn_repo.Base.Order.{nat_ord}
use ndn_repo.Collections.HashMap.{HashMap}
use ndn_repo.Collections.Distinct.{contains}
use ndn_repo.Extern.Concrete.{short_tlv, octet_name, listed_store, octet_packet}
use ndn_repo.Extern.Tlv.{IsAddressable}
use ndn_repo.Repo.Cmd.{
  SyncJoin, SyncLeave, RepoCmd, sync_leave, blob_fetch, ok, err, encode, encode_blob_fetch,
  encode_packets, name_container_opt,
}
use ndn_repo.Repo.Engine.{
  Repo, new, with_optional_validator, known_protocol, deep_enough, handle, handle_sync_join,
  handle_sync_leave,
}
use ndn_repo.Repo.Engine.View.{
  Implements, promised, promised_status, handle-Implements, handle_status, handle_unchanged,
}
use ndn_repo.Repo.Engine.Steps.{
  opened, receive_all, promised_all, commands, opened-Implements, receive_all-Implements,
  leave-join,
}

abbrev svs : ℕ
svs = 3

abbrev no_packets : HashMap ℕ (List ℕ)
no_packets = []

abbrev empty : Repo ℕ (HashMap ℕ (List ℕ)) ℕ
empty = new no_packets

empty-Implements : Implements empty (opened no_packets)
empty-Implements = opened-Implements svs no_packets

abbrev join_6 : SyncJoin ℕ
join_6 = record {
  protocol = some 3;
  group = some 6;
  multicast_prefix = none;
  history_threshold = some 10;
  security_config = none;
}

abbrev leave_6 : SyncLeave ℕ
leave_6 = record { protocol = none; group = some 6 }

-- Two packets, of which the first is named 9, and the name 4.
abbrev push_and_ask : RepoCmd ℕ
push_and_ask = blob_fetch (record { name = some 4; packets = (9 ∷ (1 ∷ [])) ∷ ([] ∷ []) })

push_and_ask-IsAddressable : IsAddressable (encode push_and_ask)
unfolding encode encode_blob_fetch encode_packets name_container_opt short_tlv octet_name
push_and_ask-IsAddressable = omega arith

joins : (handle_sync_join svs empty join_6).1 ≡ ok
unfolding handle_sync_join known_protocol deep_enough nat_ord
joins = refl

handle-Implements_example :
    Implements (handle svs empty push_and_ask).0 (promised svs (opened no_packets) push_and_ask)
handle-Implements_example =
    handle-Implements svs empty (opened no_packets) push_and_ask empty-Implements

handle_status_example :
    (handle svs empty (sync_leave leave_6)).1.status
    ≡ promised_status svs (opened no_packets) (sync_leave leave_6)
handle_status_example =
    handle_status svs empty (opened no_packets) (sync_leave leave_6) empty-Implements

not_joined : (handle svs empty (sync_leave leave_6)).1.status ≢ 200
unfolding handle handle_sync_leave contains new with_optional_validator err
not_joined = omega arith

handle_unchanged_example : (handle svs empty (sync_leave leave_6)).0 ≡ empty
handle_unchanged_example = handle_unchanged svs empty (sync_leave leave_6) not_joined

-- A command, and octets that are none.
abbrev values : List (List ℕ)
values = encode push_and_ask ∷ ((255 ∷ []) ∷ [])

receive_all-Implements_example :
    Implements {V = ℕ}
      (receive_all svs (new no_packets) values)
      (promised_all svs (opened no_packets) (commands values))
receive_all-Implements_example = receive_all-Implements svs no_packets values

leave-join_example :
    ((handle_sync_leave (handle_sync_join svs empty join_6).0 leave_6).1 ≡ ok)
    × ((a : ℕ)
        → contains (handle_sync_leave (handle_sync_join svs empty join_6).0 leave_6).0.groups a
          ≡ (not (nat_ord.beq 6 a) && contains empty.groups a))
leave-join_example =
    leave-join svs empty join_6 leave_6 6 empty-Implements.ascending joins refl refl
