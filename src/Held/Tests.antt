-- ===== src/Held/Tests.antt =====
-- crates/ndn-repo/src/held.rs: a packet kept on three stripes of which any one suffices; two are lost.
use ndn_repo.Base.{
  ℕ, ◌≡◌, ◌≤◌, inl, inr, refl, none, some, List, [], ◌∷◌, length, arith, All, if◌then◌else◌,
}
use ndn_repo.Base.Order.{nat_ord, nat_beq}
use ndn_repo.Collections.HashMap.{HashMap, upsert, get as map_get}
use ndn_repo.Extern.Concrete.{listed_store}
use ndn_repo.Extern.Copies.{copies, copies-IsCodec, length_digest}
use ndn_repo.Wire.Nni.{be_bytes}
use ndn_repo.Wire.Slices.{repeat, bytes_eq}
use ndn_repo.Held.Shards.{
  Erasure, default_erasure, shard_size, source_segment, shard_record, u32_of, read_shard,
  read_shard-shard_record,
}
use ndn_repo.Held.Encoding.{IsErasure}
use ndn_repo.Held.Stripes.{
  ErasureStore, feed_sources, parity_records, encode, records, insert_each, insert, get,
}
use ndn_repo.Held.Rebuild.{good}
use ndn_repo.Cluster.Object.{digits, decimal}
use ndn_repo.Extern.Concrete.{numbered_names}
use ndn_repo.Held.Repair.{records-get}
use ndn_repo.Held.Holder.{HolderStore, get as holder_get}
use ndn_repo.Held.Holder.Calls.{
  Call, insert_call, remove_call, promised, IsCodable, receive, get-receive,
}
use ndn_repo.Held.Text.{mismatch, erasure_text, same_parameters, open_record}
use ndn_repo.Held.Text.Reopen.{open_record-again}
use ndn_repo.Held.Losses.{Outlast, get-insert}

abbrev one_of_three : Erasure
one_of_three = record { k = 1; n = 3 }

one_of_three-IsErasure : IsErasure one_of_three
one_of_three-IsErasure = record {
  some_sources = omega arith;
  enough_shards = omega arith;
  few_shards = omega arith;
}

abbrev empty_stripes : List (HashMap ℕ (List ℕ))
empty_stripes = [] ∷ ([] ∷ ([] ∷ []))

abbrev before : ErasureStore ℕ (HashMap ℕ (List ℕ))
before = record { erasure = one_of_three; stripes = empty_stripes; refused = none }

abbrev packet : List ℕ
packet = 7 ∷ (8 ∷ [])

abbrev lose_two : List (HashMap ℕ (List ℕ)) → List (HashMap ℕ (List ℕ))
lose_two (a ∷ (b ∷ (c ∷ []))) = [] ∷ (b ∷ ([] ∷ []))
lose_two stripes = stripes

abbrev after : ErasureStore ℕ (HashMap ℕ (List ℕ))
after = record before { stripes = lose_two (insert before 5 packet).stripes }

lost : Outlast one_of_three 0 (records after 5) (records (insert before 5 packet) 5)
unfolding insert encode feed_sources parity_records source_segment shard_size insert_each records
    upsert map_get nat_ord nat_beq listed_store length_digest repeat
lost = (inl refl, (inr refl, (inl refl, tt)))

enough : 1 ≤ length (good one_of_three 0 (records after 5))
unfolding insert encode feed_sources parity_records source_segment shard_size insert_each records
    upsert map_get nat_ord nat_beq listed_store length_digest repeat good read_shard shard_record
    be_bytes u32_of bytes_eq
enough = omega arith

get-insert_example : (get after 5).1 ≡ some packet
get-insert_example =
    get-insert before copies-IsCodec one_of_three-IsErasure after 5 packet (omega arith) refl refl
      lost enough

read_shard-shard_record_example :
    read_shard one_of_three 2 (shard_record packet 2 (7 ∷ (8 ∷ [])))
    ≡ some
        (record { index = 2; len = 2; digest = length_digest.sha256 packet; body = 7 ∷ (8 ∷ []) })
read_shard-shard_record_example =
    read_shard-shard_record one_of_three packet 2 (7 ∷ (8 ∷ [])) (omega arith) (omega arith) size
  where
    size : length packet ≡ shard_size one_of_three (length packet)
    size = unfold shard_size in refl

-- Reading the packet gives the two lost stripes their shards again.
records-get_example : records (get after 5).0 5 ≡ records (insert before 5 packet) 5
records-get_example =
    records-get before copies-IsCodec one_of_three-IsErasure after 5 packet (omega arith) refl refl
      lost enough

-- The names from 200 on are the device's own.
abbrev holder : HolderStore ℕ (HashMap ℕ (List ℕ))
holder = record { device = 200; localhost = 300; own = []; held = before }

abbrev calls : List (Call ℕ)
calls = insert_call 5 packet ∷ insert_call 250 (9 ∷ []) ∷ insert_call 6 packet ∷ remove_call 5 ∷ []

calls-IsCodable : All IsCodable calls
calls-IsCodable = (omega arith, (omega arith, (omega arith, (tt, tt))))

get-receive_example :
    (holder_get (receive calls holder) 6).1 ≡ promised calls (λ a. (holder_get holder a).1) 6
get-receive_example =
    get-receive holder one_of_three copies-IsCodec calls 6 one_of_three-IsErasure
      (record { same_erasure = refl; all_stripes = refl }) calls-IsCodable

-- The record "2/3" and the end of the line.
abbrev two_of_three : List ℕ
two_of_three = 50 ∷ 47 ∷ 51 ∷ 10 ∷ []

default_erasure-IsErasure : IsErasure default_erasure
unfolding default_erasure
default_erasure-IsErasure = record {
  some_sources = omega arith;
  enough_shards = omega arith;
  few_shards = omega arith;
}

open_record-default : open_record none default_erasure ≡ inr two_of_three
unfolding open_record default_erasure erasure_text decimal digits
open_record-default = refl

open_record-again_example : open_record (some two_of_three) one_of_three ≡ (
    if same_parameters default_erasure one_of_three
    then inr two_of_three
    else inl (mismatch default_erasure one_of_three))
open_record-again_example =
    open_record-again default_erasure one_of_three two_of_three default_erasure-IsErasure
      open_record-default
