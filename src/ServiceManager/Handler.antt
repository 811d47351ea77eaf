-- ===== src/ServiceManager/Handler.antt =====
-- `svcmgr_handler` of servicemanager/service_manager.c: one transaction of the service manager.
use android_binder_ipc.Common.{
  ℕ, zero, suc, Bool, true, false, not, ◌||◌, Option, none, some, List, [], ◌∷◌, if◌then◌else◌,
  ◌==◌, length,
}
use android_binder_ipc.BinderIo.{
  BinderIo, bio_get_uint32, bio_get_string16, bio_get_ref, bio_put_uint32, bio_put_ref,
  bio_put_string16,
}
use android_binder_ipc.ServiceManager.{
  Svcinfo, Manager, Run, done, fault, same_units, do_find_service, do_add_service,
}

-- "android.os.IServiceManager"
abbrev pub svcmgr_id : List ℕ
svcmgr_id =
    b'a' ∷ b'n' ∷ b'd' ∷ b'r' ∷ b'o' ∷ b'i' ∷ b'd' ∷ b'.' ∷ b'o' ∷ b's' ∷ b'.' ∷ b'I' ∷ b'S' ∷ b'e'
    ∷ b'r' ∷ b'v' ∷ b'i' ∷ b'c' ∷ b'e' ∷ b'M' ∷ b'a' ∷ b'n' ∷ b'a' ∷ b'g' ∷ b'e' ∷ b'r' ∷ []

-- `true` is 0, `false` is -1; with the reply and the services.
abbrev pub Answer : Type 0
Answer = Bool × BinderIo × Manager

-- The service that stands so far down in the list.
unfoldable pub nth_svc : ℕ → List Svcinfo → Option Svcinfo
nth_svc n [] = none
nth_svc zero (si ∷ rest) = some si
nth_svc (suc n) (si ∷ rest) = nth_svc n rest

unfoldable pub get_service : BinderIo → BinderIo → Manager → Run Answer
unfolding bio_get_string16 do_find_service bio_put_ref bio_put_uint32
get_service msg reply m =
    let (s, len, rest) = bio_get_string16 msg in
    elim (do_find_service s len m) [
      | fault ↦ fault
      | done ptr ↦
          if ptr == 0
          then done (true, bio_put_uint32 0 reply, m)
          else done (true, bio_put_ref ptr reply, m)
    ]

unfoldable pub add_service : BinderIo → BinderIo → ℕ → Manager → Run Answer
unfolding bio_get_string16 bio_get_ref do_add_service bio_put_uint32
add_service msg reply euid m =
    let (s, len, rest) = bio_get_string16 msg in
    let (ptr, rest') = bio_get_ref rest in
    elim (do_add_service s len ptr euid m) [
      | fault ↦ fault
      | done r ↦ done (if r.0 then (true, bio_put_uint32 0 reply, r.1) else (false, reply, r.1))
    ]

unfoldable pub list_services : BinderIo → BinderIo → Manager → Run Answer
unfolding bio_get_uint32 nth_svc bio_put_string16
list_services msg reply m =
    let (n, rest) = bio_get_uint32 msg in
    elim (nth_svc n m.svclist) [
      | none ↦ done (false, reply, m)
      | some si ↦ done (true, bio_put_string16 (some si.name) reply, m)
    ]

-- The switch: SVC_MGR_GET_SERVICE, SVC_MGR_CHECK_SERVICE, SVC_MGR_ADD_SERVICE, SVC_MGR_LIST_SERVICES.
unfoldable pub serve : ℕ → ℕ → BinderIo → BinderIo → Manager → Run Answer
unfolding get_service add_service list_services
serve code euid msg reply m =
    if code == 1 || code == 2
    then get_service msg reply m
    else if code == 3
    then add_service msg reply euid m
    else if code == 4
    then list_services msg reply m
    else done (false, reply, m)

-- The message names the interface.
unfoldable pub right_id : Option (List ℕ) → ℕ → Run Bool
unfolding same_units
right_id s len =
    if not (len == length svcmgr_id)
    then done false
    else elim s [ none ↦ fault | some units ↦ done (same_units (length svcmgr_id) svcmgr_id units) ]

-- `handle` is svcmgr_handle, `target`, `code` and `euid` are the transaction's.
unfoldable pub svcmgr_handler : ℕ → ℕ → ℕ → ℕ → BinderIo → BinderIo → Manager → Run Answer
unfolding right_id serve bio_get_uint32 bio_get_string16
svcmgr_handler handle target code euid msg reply m =
    let (strict_policy, after) = bio_get_uint32 msg in
    let (s, len, rest) = bio_get_string16 after in
    if not (target == handle) then done (false, reply, m) else elim (right_id s len) [
      | fault ↦ fault
      | done right ↦ if right then serve code euid rest reply m else done (false, reply, m)
    ]
