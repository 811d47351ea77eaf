-- ===== src/ServiceManager/Messages.antt =====
-- `svcmgr_handler` of servicemanager/service_manager.c on the messages that its clients send: the strict
-- policy, the name of the interface, the name of a service and, to register it, its reference.
use android_binder_ipc.Common.{
  ℕ, ◌+◌, ◌^◌, ◌≤◌, ◌<◌, ◌≡◌, refl, sym, ap, subst, ◌∙◌, arith, Bool, true, false, Option, some,
  List, [], ◌∷◌, ◌++◌, All, length, length-append, take, drop, get_or, ltb, ◌==◌, ◌||◌, ◌&&◌,
  if◌then◌else◌, ==-self,
}
use android_binder_ipc.Driver.Bytes.{bytes_of, IsWord, type_handle}
use android_binder_ipc.BinderIo.{
  BinderIo, bio_get_uint32, bio_get_string16, bio_get_ref, bio_put_ref, bio_put_uint32, is_offset,
}
use android_binder_ipc.BinderIo.Items.{
  Item, IsItem, IsUnit, text_bytes, item_bytes, item_offs, items_bytes, items_offs,
}
use android_binder_ipc.BinderIo.GetItems.{
  Ready, Marked, Marked-stays, number-Reads, handle-Reads, kind, get_item, text-Found,
}
use android_binder_ipc.ServiceManager.{
  Manager, Run, done, fault, same_units, do_find_service, do_add_service,
}
use android_binder_ipc.ServiceManager.Handler.{
  svcmgr_id, right_id, serve, get_service, add_service, list_services, svcmgr_handler, Answer,
}

-- What comes before the arguments of a request.
abbrev pub header : ℕ → List Item → List Item
header strict is = Item.number strict ∷ Item.text svcmgr_id ∷ is

same_units-front : (xs us : List ℕ) → take (length xs) us ≡ xs → same_units (length xs) xs us ≡ true
unfolding same_units
same_units-front [] us e = refl
same_units-front (x ∷ xs) [] e = absurd (omega (arith, ap length e))
same_units-front (x ∷ xs) (u ∷ us) e =
    let own = ==-self x in
    let here = ap (λ l. get_or l 0 0) e in
    let rest = same_units-front xs us (ap (drop 1) e) in grind arith

abbrev units_only : List ℕ → Bool
units_only [] = true
units_only (u ∷ us) = ltb 0 u && ltb u (2 ^ 16) && units_only us

units_only_lem : (us : List ℕ) → units_only us ≡ true → All IsUnit us
units_only_lem [] h = tt
units_only_lem (u ∷ us) h = ((λ e. grind arith, grind arith), units_only_lem us (grind arith))

pub svcmgr_id-units : All IsUnit svcmgr_id
svcmgr_id-units = units_only_lem svcmgr_id refl

module _ (code euid : ℕ) (answer : BinderIo) (m : Manager) where
  abbrev judge : Option (List ℕ) × ℕ × BinderIo → Run Answer
  judge t = elim (right_id t.0 t.1) [
    | fault ↦ fault
    | done right ↦ if right then serve code euid t.2 answer m else done (false, answer, m)
  ]

  -- Behind the header, the request is served.
  handler_lem :
      (msg b₁ b₂ : BinderIo) (strict : ℕ) (xs : List ℕ)
      → bio_get_uint32 msg ≡ (strict, b₁)
      → bio_get_string16 b₁ ≡ (some xs, length svcmgr_id, b₂)
      → take (length svcmgr_id) xs ≡ svcmgr_id
      → svcmgr_handler 0 0 code euid msg answer m ≡ serve code euid b₂ answer m
  unfolding svcmgr_handler right_id
  handler_lem msg b₁ b₂ strict xs e f g =
      ap (λ q. judge (bio_get_string16 q.1)) e
      ∙ ap judge f
      ∙ ap (λ r. if r then serve code euid b₂ answer m else done (false, answer, m))
          (same_units-front svcmgr_id xs g)

  -- A message that begins with the header is served with what stands behind that.
  abbrev Headed : List Item → BinderIo → Type 0
  Headed is msg =
      (b : BinderIo) × (pre : List ℕ) × (svcmgr_handler 0 0 code euid msg answer m
        ≡ serve code euid b answer m)
      × Ready pre (items_bytes is) b
      × Marked (items_offs (length pre) is) b

  header_lem :
      (strict : ℕ) (is : List Item) (msg : BinderIo)
      → IsWord strict
      → Ready [] (items_bytes (header strict is)) msg
      → Marked (items_offs 0 (header strict is)) msg
      → Headed is msg
  unfolding items_bytes item_bytes items_offs item_offs IsItem get_item kind
  header_lem strict is msg w r k =
      let (b₁, e, r₁, o₁, n₁) =
        number-Reads strict msg []
          ((bytes_of (length svcmgr_id ∷ []) ++ text_bytes svcmgr_id) ++ items_bytes is) w r in
      let (xs, b₂, f, same, enough, r₂, o₂, n₂) =
        text-Found svcmgr_id b₁ (bytes_of (strict ∷ [])) (items_bytes is) svcmgr_id-units
          (omega arith) r₁ in
      (
        b₂,
        bytes_of (strict ∷ []) ++ (bytes_of (length svcmgr_id ∷ []) ++ text_bytes svcmgr_id),
        handler_lem msg b₁ b₂ strict xs (ap (λ q. (number_of q.0, q.1)) e) f same,
        r₂,
        Marked-stays (items_offs 64 is) b₁ b₂ o₂ n₂
            (Marked-stays (items_offs 64 is) msg b₁ o₁ n₁ k),
      )
    where
      number_of : Item → ℕ
      number_of (Item.number n) = n
      number_of (Item.handle p) = 0
      number_of (Item.text us) = 0

-- What the handler answers when a service is registered.
abbrev pub registered : BinderIo → Run (Bool × Manager) → Run Answer
registered answer x = elim x [
  | fault ↦ fault
  | done r ↦ done (if r.0 then (true, bio_put_uint32 0 answer, r.1) else (false, answer, r.1))
]

abbrev pub handle_of : Item → ℕ
handle_of (Item.number n) = 0
handle_of (Item.handle p) = p
handle_of (Item.text us) = 0

-- What a request with a name reads of it.
abbrev pub Named : List ℕ → List ℕ → Type 0
Named name xs = (take (length name) xs ≡ name) × (length name ≤ length xs)

first_offset :
    (n k : ℕ) (b : BinderIo) → k ≡ n → Marked (n ∷ []) b → is_offset b.offs_avail k b.offs ≡ true
unfolding Marked
first_offset n k b e m = subst (λ x. is_offset b.offs_avail x b.offs ≡ true) (sym e) m.0

-- A request to register a service does that.
pub add_request :
    (euid : ℕ) (answer : BinderIo) (m : Manager) (strict : ℕ) (name : List ℕ) (p : ℕ)
    (msg : BinderIo)
    → IsWord strict
    → All IsUnit name
    → length name < 2 ^ 29
    → IsItem (Item.handle p)
    → Ready [] (items_bytes (header strict (Item.text name ∷ Item.handle p ∷ []))) msg
    → Marked (items_offs 0 (header strict (Item.text name ∷ Item.handle p ∷ []))) msg
    → (xs : List ℕ) × Named name xs
      × (svcmgr_handler 0 0 3 euid msg answer m
          ≡ registered answer (do_add_service (some xs) (length name) p euid m))
unfolding items_bytes item_bytes items_offs item_offs get_item kind serve add_service
add_request euid answer m strict name p msg w hu hl hp r k =
    let (b, pre, e, ready, marked) =
      header_lem 3 euid answer m strict (Item.text name ∷ Item.handle p ∷ []) msg w r k in
    let words = bytes_of (type_handle ∷ 0x17f ∷ p ∷ 0 ∷ []) in
    let part = bytes_of (length name ∷ []) ++ text_bytes name in
    let (xs, b₁, f, same, enough, r₁, o₁, n₁) = text-Found name b pre (words ++ []) hu hl ready in
    let (b₂, g, r₂, o₂, n₂) =
      handle-Reads p b₁ (pre ++ (bytes_of (length name ∷ []) ++ text_bytes name)) [] hp r₁ (
        first_offset (length pre + length part) (length (pre ++ part)) b₁ (length-append pre part)
          (Marked-stays ((length pre + length part) ∷ []) b b₁ o₁ n₁ marked)) in
    (
      xs,
      (same, enough),
      e
          ∙ ap (λ t. registered answer (do_add_service t.0 t.1 (bio_get_ref t.2).0 euid m)) f
          ∙ ap
              (λ q.
                registered answer (do_add_service (some xs) (length name) (handle_of q.0) euid m))
              g,
    )

-- What the handler answers when a service is looked up.
abbrev pub answered : BinderIo → Manager → Run ℕ → Run Answer
answered answer m x = elim x [
  | fault ↦ fault
  | done ptr ↦
      if ptr == 0
      then done (true, bio_put_uint32 0 answer, m)
      else done (true, bio_put_ref ptr answer, m)
]

-- A request to look a service up does that.
pub find_request :
    (code euid : ℕ) (answer : BinderIo) (m : Manager) (strict : ℕ) (name : List ℕ) (msg : BinderIo)
    → (code == 1 || code == 2) ≡ true
    → IsWord strict
    → All IsUnit name
    → length name < 2 ^ 29
    → Ready [] (items_bytes (header strict (Item.text name ∷ []))) msg
    → Marked (items_offs 0 (header strict (Item.text name ∷ []))) msg
    → (xs : List ℕ) × Named name xs
      × (svcmgr_handler 0 0 code euid msg answer m
          ≡ answered answer m (do_find_service (some xs) (length name) m))
unfolding items_bytes item_bytes serve get_service
find_request code euid answer m strict name msg c w hu hl r k =
    let (b, pre, e, ready, marked) =
      header_lem code euid answer m strict (Item.text name ∷ []) msg w r k in
    let (xs, b₁, f, same, enough, r₁, o₁, n₁) = text-Found name b pre [] hu hl ready in
    (
      xs,
      (same, enough),
      e
          ∙ ap
              (λ t.
                if t
                then answered answer m
                    (do_find_service (bio_get_string16 b).0 (bio_get_string16 b).1 m)
                else others code b)
              c
          ∙ ap (λ t. answered answer m (do_find_service t.0 t.1 m)) f,
    )
  where
    others : ℕ → BinderIo → Run Answer
    others n b =
        if n == 3
        then add_service b answer euid m
        else if n == 4
        then list_services b answer m
        else done (false, answer, m)
