-- ===== src/ServiceManager/Tests/Requests.antt =====
-- A service that is registered and looked up with messages of servicemanager/binder.c.
use android_binder_ipc.Common.{ℕ, true, false, List, [], ◌∷◌, ◌≡◌, refl, arith, All, map}
use android_binder_ipc.BinderIo.{
  bio_init, bio_init_from_txn, bio_put_ref, bio_put_uint32, bio_put_string16, bio_get_ref,
  bio_get_uint32, bio_get_string16,
}
use android_binder_ipc.BinderIo.Items.{Item, IsItem, IsUnit, put_item, put_items}
use android_binder_ipc.BinderIo.GetItems.{get_items, kind}
use android_binder_ipc.BinderIo.RoundTrip.{as_message, get_items-put_items}
use android_binder_ipc.ServiceManager.{
  done, do_add_service, svc_can_register, find_svc, register_svc,
}
use android_binder_ipc.ServiceManager.Handler.{svcmgr_handler, add_service, serve, right_id}
use android_binder_ipc.ServiceManager.Registry.{Numbered}
use android_binder_ipc.ServiceManager.History.{boot}
use android_binder_ipc.ServiceManager.Publish.{request, publish_lookup}
use android_binder_ipc.ServiceManager.Tests.{one}

-- "nfc"
abbrev name : List ℕ
name = b'n' ∷ b'f' ∷ b'c' ∷ []

name-units : All IsUnit name
name-units = (
  (λ e. grind arith, omega arith),
  ((λ e. grind arith, omega arith), ((λ e. grind arith, omega arith), tt)),
)

publishing : (request 0 (Item.text name ∷ Item.handle 21 ∷ []) 256 4).overflow ≡ false
unfolding put_items put_item bio_put_uint32 bio_put_string16 bio_put_ref bio_init
publishing = refl

looking : (request 0 (Item.text name ∷ []) 256 4).overflow ≡ false
unfolding put_items put_item bio_put_uint32 bio_put_string16 bio_init
looking = refl

boot-Numbered : Numbered (boot []).svclist
unfolding Numbered
boot-Numbered = tt

published :
    svcmgr_handler 0 0 3 0
      (as_message (request 0 (Item.text name ∷ Item.handle 21 ∷ []) 256 4))
      (bio_init 256 4)
      (boot [])
    ≡ done (true, bio_put_uint32 0 (bio_init 256 4), one)
unfolding svcmgr_handler put_items put_item bio_put_uint32 bio_put_string16 bio_put_ref bio_init
    bio_init_from_txn bio_get_uint32 bio_get_string16 serve add_service bio_get_ref right_id
    do_add_service svc_can_register find_svc register_svc
published = refl

publish_lookup_example :
    (svcmgr_handler 0 0 1 1000
        (as_message (request 0 (Item.text name ∷ []) 256 4))
        (bio_init 256 4)
        one
      ≡ done (true, bio_put_ref 21 (bio_init 256 4), one))
    × ((bio_get_ref (as_message (bio_put_ref 21 (bio_init 256 4)))).0 ≡ 21)
publish_lookup_example =
    publish_lookup name 21 1 0 1000 0 0 256 4 256 4 (bio_init 256 4)
      (bio_put_uint32 0 (bio_init 256 4)) (boot []) one (name-units, omega arith)
      (omega arith, λ e. grind arith) (omega arith, omega arith) refl publishing looking
      boot-Numbered published

abbrev three : List Item
three = Item.number 7 ∷ Item.text name ∷ Item.handle 21 ∷ []

three-fit : (put_items three (bio_init 256 4)).overflow ≡ false
unfolding put_items put_item bio_put_uint32 bio_put_string16 bio_put_ref bio_init
three-fit = refl

three-IsItem : All IsItem three
unfolding IsItem
three-IsItem = (omega arith, ((name-units, omega arith), ((omega arith, λ e. grind arith), tt)))

get_items-put_items_example :
    get_items (map kind three) (as_message (put_items three (bio_init 256 4))) ≡ three
get_items-put_items_example = get_items-put_items three 256 4 three-IsItem three-fit
