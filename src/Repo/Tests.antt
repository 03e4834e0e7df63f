-- ===== src/Repo/Tests.antt =====
-- crates/ndn-repo/src/tlv.rs: a command and a reply.
use ndn_repo.Base.{ℕ, ◌≡◌, ◌<◌, ◌^◌, refl, true, none, some, [], ◌∷◌, arith}
use ndn_repo.Extern.Concrete.{short_tlv, octet_name}
use ndn_repo.Extern.Tlv.{IsAddressable}
use ndn_repo.Wire.Nni.{be_bytes, nni_bytes}
use ndn_repo.Wire.Utf8.{is_utf8, utf8_from, lead}
use ndn_repo.Repo.Cmd.{
  RepoCmd, sync_join, RepoCmdRes, err, write_nni, encode_message, encode_res, decode_res,
  encode_threshold, name_container_opt, encode_sync_join, encode, decode,
}
use ndn_repo.Repo.Cmd.RoundTrip.{decode-encode_cmd, decode_res-encode_res}

abbrev join_group : RepoCmd ℕ
join_group = sync_join (record {
  protocol = some 5;
  group = some 6;
  multicast_prefix = none;
  history_threshold = some 300;
  security_config = none;
})

join_group-IsAddressable : IsAddressable (encode join_group)
unfolding encode encode_sync_join encode_threshold name_container_opt write_nni nni_bytes be_bytes
    short_tlv octet_name
join_group-IsAddressable = omega arith

decode-encode_cmd_example : decode (encode join_group) ≡ some join_group
decode-encode_cmd_example = decode-encode_cmd join_group (omega arith) join_group-IsAddressable

-- The reply 404 with the text "no".
abbrev not_found : RepoCmdRes
not_found = err 404 (110 ∷ (111 ∷ []))

not_found-IsAddressable : IsAddressable (encode_res not_found)
unfolding err encode_res encode_message write_nni nni_bytes be_bytes short_tlv
not_found-IsAddressable = omega arith

not_found_is_text : is_utf8 not_found.message ≡ true
unfolding err is_utf8 utf8_from lead
not_found_is_text = refl

decode_res-encode_res_example : decode_res (encode_res not_found) ≡ some not_found
decode_res-encode_res_example =
    decode_res-encode_res not_found small not_found_is_text not_found-IsAddressable
  where
    small : not_found.status < 2 ^ 64
    small = unfold err in omega arith
