-- ===== src/Repo/Ingest/Tests.antt =====
-- crates/ndn-repo/src/ingest.rs: an update of five publications, of which the third is rejected.
use ndn_repo.Base.{
  ℕ, ◌+◌, ◌-◌, ◌≡◌, refl, true, List, [], ◌∷◌, if◌then◌else◌, ◌==◌, All, arith, suc,
}
use ndn_repo.Base.Order.{nat_ord, nat_beq}
use ndn_repo.Collections.Distinct.{contains}
use ndn_repo.Extern.Sync.{SvSync, SyncUpdate}
use ndn_repo.Repo.Ingest.{
  Event, update, closed, ack_of, present, ingest_from, ingest_update, ingest_group,
}
use ndn_repo.Repo.Ingest.Acks.{Stored, UpToHole, ingest_update-UpToHole, ingest_group-Stored}

-- The world is the list of the names that are stored; the publication 3 is never fetched.
abbrev fetch_some : List ℕ → ℕ → ℕ → List ℕ × ℕ
fetch_some w name seq = if seq == 3 then (w, 0) else ((name + seq) ∷ w, 1)

fetch_some_keeps :
    (w : List ℕ) (name seq other : ℕ)
    → contains w other ≡ true
    → contains (fetch_some w name seq).0 other ≡ true
unfolding contains
fetch_some_keeps w name seq other h = ground (arith, h)

instance unfoldable listed_world : SvSync ℕ (List ℕ)
unfolding fetch_some_keeps
listed_world = record {
  ingest_publication = fetch_some;
  svs_data_name = λ name group seq. name + seq;
  found_under = contains;
  ack = λ w publisher seq. w;
  ingest_keeps = fetch_some_keeps;
  ack_keeps = λ w publisher seq other h. h;
}

abbrev five : SyncUpdate ℕ
five = record { publisher = 1; name = 100; low_seq = 1; high_seq = 5 }

abbrev nothing_held : List ℕ
nothing_held = []

ingest_update-UpToHole_example :
    UpToHole 9 five 1
      (suc 5 - 1)
      (ingest_update true 9 five nothing_held).0
      (ingest_update true 9 five nothing_held).1
ingest_update-UpToHole_example = ingest_update-UpToHole 9 five nothing_held

-- The publications 1 and 2 are acknowledged, and none behind the hole.
two_acked : (ingest_update true 9 five nothing_held).1 ≡ ack_of five 1 ∷ ack_of five 2 ∷ []
unfolding ingest_update ingest_from present ack_of contains nat_ord nat_beq listed_world
two_acked = refl

abbrev run_of_five : List (Event ℕ)
run_of_five = update five ∷ closed ∷ []

ingest_group-Stored_example :
    All
      (Stored 9 (ingest_group true 9 run_of_five nothing_held).0)
      (ingest_group true 9 run_of_five nothing_held).1
ingest_group-Stored_example = ingest_group-Stored true 9 run_of_five nothing_held
