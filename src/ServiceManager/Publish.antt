-- ===== src/ServiceManager/Publish.antt =====
-- A service that a client of servicemanager/service_manager.c registers and another looks up, with the
-- messages that both send.
use android_binder_ipc.Common.{
  ℕ, zero, suc, ◌^◌, ◌≤◌, ◌<◌, ◌≡◌, ◌≢◌, refl, sym, ap, ap₂, ◌∙◌, arith, Bool, true, false, none,
  some, List, [], ◌∷◌, All, length, take, drop, get_or, ◌==◌, ◌||◌, ◌&&◌, if◌then◌else◌,
}
use android_binder_ipc.Driver.Bytes.{IsWord, type_handle}
use android_binder_ipc.BinderIo.{
  BinderIo, bio_init, bio_get_ref, bio_put_ref, bio_put_uint32, bio_alloc, bio_alloc_obj, round_up,
  put_object,
}
use android_binder_ipc.BinderIo.Items.{
  Item, IsItem, IsUnit, put_item, put_items, items_bytes, items_offs,
}
use android_binder_ipc.BinderIo.PutItems.{items-Wrote}
use android_binder_ipc.BinderIo.GetItems.{Ready, Marked, kind, get_item, get_items}
use android_binder_ipc.BinderIo.RoundTrip.{
  as_message, as_message_lem, init-Wrote, get_items-put_items,
}
use android_binder_ipc.ServiceManager.{
  Manager, Svcinfo, Run, done, fault, same_units, find_svc, do_find_service, do_add_service,
}
use android_binder_ipc.ServiceManager.Handler.{svcmgr_handler, Answer}
use android_binder_ipc.ServiceManager.Registry.{Numbered}
use android_binder_ipc.ServiceManager.Lookup.{add-find}
use android_binder_ipc.ServiceManager.Messages.{
  header, svcmgr_id-units, registered, handle_of, add_request, answered, find_request,
}

same_units-cut :
    (n : ℕ) (xs ys zs : List ℕ)
    → n ≤ length xs
    → n ≤ length ys
    → take n xs ≡ take n ys
    → same_units n xs zs ≡ same_units n ys zs
unfolding same_units
same_units-cut zero xs ys zs h k e = refl
same_units-cut (suc n) [] ys zs h k e = absurd (omega arith)
same_units-cut (suc n) (x ∷ xs) [] zs h k e = absurd (omega arith)
same_units-cut (suc n) (x ∷ xs) (y ∷ ys) [] h k e = refl
same_units-cut (suc n) (x ∷ xs) (y ∷ ys) (z ∷ zs) h k e =
    ap₂ (λ a b. (a == z) && b) (ap (λ l. get_or l 0 0) e)
      (same_units-cut n xs ys zs (omega arith) (omega arith) (ap (drop 1) e))

-- Only the units of the name count.
find_svc-cut :
    (n : ℕ) (xs ys : List ℕ) (l : List Svcinfo)
    → n ≤ length xs
    → n ≤ length ys
    → take n xs ≡ take n ys
    → find_svc (some xs) n l ≡ find_svc (some ys) n l
unfolding find_svc
find_svc-cut n xs ys [] h k e = refl
find_svc-cut n xs ys (si ∷ l) h k e =
    ap₂ (λ a o. if n == si.len && a then done (some si) else o)
      (same_units-cut n xs ys si.name h k e) (find_svc-cut n xs ys l h k e)

abbrev accepted : Run Answer → Bool
accepted fault = false
accepted (done a) = a.0

refused : {A : Type 0} → false ≡ true → A
refused e = absurd (grind arith)

not_null : (p : ℕ) → p ≢ 0 → (p == 0) ≡ false
not_null p h = grind arith

-- Two messages with the same name find the same service.
same_name :
    (name xs ys : List ℕ) (m : Manager)
    → (length name ≤ length xs) × (length name ≤ length ys)
    → take (length name) xs ≡ take (length name) ys
    → do_find_service (some ys) (length name) m ≡ do_find_service (some xs) (length name) m
unfolding do_find_service
same_name name xs ys m h e =
    ap
      (λ x. elim x as (λ y. Run ℕ) [
        | fault ↦ fault
        | done o ↦ elim o [ none ↦ done 0 | some si ↦ done si.ptr ]
      ])
      (find_svc-cut (length name) ys xs m.svclist h.1 h.0 (sym e))

registered_inj :
    (answer r : BinderIo) (x : Run (Bool × Manager)) (m' : Manager)
    → registered answer x ≡ done (true, r, m')
    → x ≡ done (true, m')
registered_inj answer r fault m' e = refused (ap accepted e)
registered_inj answer r (done (true, v)) m' e =
    ap (λ z. done (true, z)) (ap (λ x. elim x [ fault ↦ v | done q ↦ q.2 ]) e)
registered_inj answer r (done (false, v)) m' e = refused (ap accepted e)

-- A message with the header and these values.
abbrev pub request : ℕ → List Item → ℕ → ℕ → BinderIo
request strict is maxdata maxoffs = put_items (header strict is) (bio_init maxdata maxoffs)

request_lem :
    (strict : ℕ) (is : List Item) (maxdata maxoffs : ℕ)
    → IsWord strict
    → All IsItem is
    → (request strict is maxdata maxoffs).overflow ≡ false
    → Ready [] (items_bytes (header strict is)) (as_message (request strict is maxdata maxoffs))
      × Marked (items_offs 0 (header strict is)) (as_message (request strict is maxdata maxoffs))
request_lem strict is maxdata maxoffs w v h =
    as_message_lem (header strict is) (request strict is maxdata maxoffs) (
      items-Wrote (header strict is) (bio_init maxdata maxoffs) [] []
        (unfold IsItem in (w, ((svcmgr_id-units, omega arith), v))) (init-Wrote maxdata maxoffs) h)

reference_fits : (q : ℕ) → q ≢ 0 → (bio_put_ref q (bio_init 256 4)).overflow ≡ false
unfolding bio_put_ref bio_alloc_obj bio_alloc bio_init round_up
reference_fits q h =
    ap
      (λ b.
        let p = if b then bio_alloc 16 (bio_init 256 4) else bio_alloc_obj (bio_init 256 4) in
        (elim p.0 as (λ x. BinderIo) [
          | none ↦ p.1
          | some at ↦ put_object type_handle q at p.1
        ]).overflow)
      (not_null q h)

-- The reply holds the reference that was put into it.
reference_arrives :
    (p : ℕ)
    → IsItem (Item.handle p)
    → (bio_get_ref (as_message (bio_put_ref p (bio_init 256 4)))).0 ≡ p
reference_arrives p v =
    unfold get_items get_item kind put_items put_item in
    ap (λ l. elim l as (λ x. ℕ) [ [] ↦ 0 | i ∷ is ↦ handle_of i ])
      (get_items-put_items (Item.handle p ∷ []) 256 4 (v, tt)
        (reference_fits p (unfold IsItem in v.1)))

-- The handler is given a request to add a service and then one to look its name up, with code 1 or 2.
-- Each is a message with the bytes and offsets that the bio_ functions put together; the first one
-- has the handle that the driver has given to the service. If the handler has accepted the first
-- request, it answers the second one with a reply, as it is handed to the driver, from which
-- bio_get_ref gives that handle. The name has any units but 0, the services stand at different
-- addresses before, and the reply is the empty buffer of 256 bytes that the command loop passes. What
-- the driver makes of the handle on the way to the client is not part of it.
pub publish_lookup :
    (name : List ℕ) (p code euid user strict policy d o d' o' : ℕ) (answer r : BinderIo)
    (m m' : Manager)
    → All IsUnit name × (length name < 2 ^ 29)
    → IsWord p × (p ≢ 0)
    → IsWord strict × IsWord policy
    → (code == 1 || code == 2) ≡ true
    → (request strict (Item.text name ∷ Item.handle p ∷ []) d o).overflow ≡ false
    → (request policy (Item.text name ∷ []) d' o').overflow ≡ false
    → Numbered m.svclist
    → svcmgr_handler 0 0 3 euid
        (as_message (request strict (Item.text name ∷ Item.handle p ∷ []) d o))
        answer
        m
      ≡ done (true, r, m')
    → (svcmgr_handler 0 0 code user
          (as_message (request policy (Item.text name ∷ []) d' o'))
          (bio_init 256 4)
          m'
        ≡ done (true, bio_put_ref p (bio_init 256 4), m'))
      × ((bio_get_ref (as_message (bio_put_ref p (bio_init 256 4)))).0 ≡ p)
publish_lookup name p code euid user strict policy d o d' o' answer r m m' u v w c f g n h =
    let (ready, marked) =
      request_lem strict (Item.text name ∷ Item.handle p ∷ []) d o w.0
        (unfold IsItem in (u, (v, tt))) f in
    let (xs, (same, enough), e) =
      add_request euid answer m strict name p
        (as_message (request strict (Item.text name ∷ Item.handle p ∷ []) d o)) w.0 u.0 u.1
        (unfold IsItem in v) ready marked in
    let (found, k) =
      add-find xs (length name) p euid m m' n enough (
        registered_inj answer r (do_add_service (some xs) (length name) p euid m) m' (sym e ∙ h)) in
    let (ready', marked') =
      request_lem policy (Item.text name ∷ []) d' o' w.1 (unfold IsItem in (u, tt)) g in
    let (ys, (same', enough'), e') =
      find_request code user (bio_init 256 4) m' policy name
        (as_message (request policy (Item.text name ∷ []) d' o')) c w.1 u.0 u.1 ready' marked' in
    (
      e'
          ∙ ap (answered (bio_init 256 4) m')
              (same_name name xs ys m' (enough, enough') (same ∙ sym same') ∙ found)
          ∙ ap
              (λ b.
                if b
                then done (true, bio_put_uint32 0 (bio_init 256 4), m')
                else done (true, bio_put_ref p (bio_init 256 4), m'))
              (not_null p v.1),
      reference_arrives p (unfold IsItem in v),
    )
