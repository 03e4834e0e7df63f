-- ===== src/Wire/Tests.antt =====
-- crates/ndn-repo/src/tlv.rs: numbers on both sides of a width.
use ndn_repo.Base.{◌≡◌, refl, [], ◌∷◌}
use ndn_repo.Extern.Concrete.{short_tlv}
use ndn_repo.Wire.Nni.{be_bytes, nni_bytes}

two_octets : nni_bytes 256 ≡ 1 ∷ (0 ∷ [])
unfolding nni_bytes be_bytes
two_octets = refl
