-- ===== src/BinderIo/Tests.antt =====
-- Runs of the bio_ functions on a message of eight bytes.
use android_binder_ipc.Common.{true, false, some, [], ◌∷◌, ◌≡◌, refl, arith}
use android_binder_ipc.BinderIo.{
  BinderIo, bio_get, bio_get_uint32, bio_get_string16, bio_put_uint32, units,
}
use android_binder_ipc.BinderIo.Inside.{IsInside}

abbrev message : BinderIo
message = record {
  bytes = 1 ∷ 0 ∷ 0 ∷ 0 ∷ 110 ∷ 0 ∷ 0 ∷ 0 ∷ [];
  offs = [];
  at = 0;
  data_avail = 8;
  offs_avail = 0;
  shared = true;
  overflow = false;
}

message-IsInside : IsInside message
unfolding IsInside
message-IsInside = omega arith

a_string : (bio_get_string16 message).0 ≡ some (110 ∷ 0 ∷ [])
unfolding bio_get_string16 bio_get_uint32 bio_get units
a_string = refl

a_number :
    bio_put_uint32 5 message
    ≡ record message { bytes = 5 ∷ 0 ∷ 0 ∷ 0 ∷ 110 ∷ 0 ∷ 0 ∷ 0 ∷ []; at = 4; data_avail = 4 }
unfolding bio_put_uint32
a_number = refl
