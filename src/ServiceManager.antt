-- ===== src/ServiceManager.antt =====
-- servicemanager/service_manager.c: the names under which services are registered. A string of a
-- message is the UTF-16 units from where its pointer points to the end of the message, and `none`
-- where bio_get_string16 has returned NULL; a service reference is a handle, 0 is NULL.
pub mod Registry
pub mod Handler
pub mod Main
pub mod Messages
pub mod Publish
pub mod Lookup
pub mod References
pub mod History
pub mod Tests
use android_binder_ipc.Common.{
  ℕ, zero, suc, ◌+◌, ◌<◌, Bool, true, false, ◌&&◌, ◌||◌, Option, none, some, List, [], ◌∷◌,
  if◌then◌else◌, ltb, leb, ◌==◌, length, get_elem?, take,
}

-- `struct svcinfo`; `id` stands for its address, `name` has `len` units.
pub record Svcinfo : Type 0 where
  pub id : ℕ
  pub ptr : ℕ
  pub name : List ℕ
  pub len : ℕ

-- What the program writes to the driver.
pub data Command : Type 0 where
  bc_acquire bc_release : ℕ → Command
  bc_request_death_notification : (ptr death : ℕ) → Command

-- `memory` is what the next calls of malloc answer (all succeed behind its end); `sent` has the
-- newest command first.
pub record Manager : Type 0 where
  pub svclist : List Svcinfo
  pub memory : List Bool
  pub sent : List Command

-- A read through NULL ends the program.
pub data Run {ℓ} (A : Type ℓ) : Type ℓ where
  done : A → Run A
  fault : Run A

-- AID_SYSTEM; AID_MEDIA, AID_DRM, AID_NFC and AID_RADIO are defined as the same number.
abbrev pub aid_system : ℕ
aid_system = 1

-- str16eq: up to the first NUL of either string
unfoldable pub str16eq : List ℕ → List ℕ → Bool
str16eq [] [] = true
str16eq [] (y ∷ ys) = y == 0
str16eq (x ∷ xs) [] = x == 0
str16eq (x ∷ xs) (y ∷ ys) =
    let rest = str16eq xs ys in
    if x == 0 || y == 0 then x == 0 && y == 0 else if x == y then rest else false

-- The loop over `allowed`, with the uid and the name of each row.
unfoldable pub in_allowed : ℕ → List ℕ → List (ℕ × List ℕ) → Bool
unfolding str16eq
in_allowed uid name [] = false
in_allowed uid name ((owner, allowed) ∷ rows) =
    let rest = in_allowed uid name rows in
    if uid == owner && str16eq name allowed then true else rest

-- The uid and the name of each row; LVMX is not defined.
abbrev pub allowed : List (ℕ × List ℕ)
allowed =
    (
      aid_system,
      b'm' ∷ b'e' ∷ b'd' ∷ b'i' ∷ b'a' ∷ b'.' ∷ b'a' ∷ b'u' ∷ b'd' ∷ b'i' ∷ b'o' ∷ b'_' ∷ b'f'
          ∷ b'l' ∷ b'i' ∷ b'n' ∷ b'g' ∷ b'e' ∷ b'r' ∷ [],
    )
    ∷ (
      aid_system,
      b'm' ∷ b'e' ∷ b'd' ∷ b'i' ∷ b'a' ∷ b'.' ∷ b'p' ∷ b'l' ∷ b'a' ∷ b'y' ∷ b'e' ∷ b'r' ∷ [],
    )
    ∷ (
      aid_system,
      b'm' ∷ b'e' ∷ b'd' ∷ b'i' ∷ b'a' ∷ b'.' ∷ b'c' ∷ b'a' ∷ b'm' ∷ b'e' ∷ b'r' ∷ b'a' ∷ [],
    )
    ∷ (
      aid_system,
      b'm' ∷ b'e' ∷ b'd' ∷ b'i' ∷ b'a' ∷ b'.' ∷ b'a' ∷ b'u' ∷ b'd' ∷ b'i' ∷ b'o' ∷ b'_' ∷ b'p'
          ∷ b'o' ∷ b'l' ∷ b'i' ∷ b'c' ∷ b'y' ∷ [],
    )
    ∷ (
      aid_system,
      b'd' ∷ b'r' ∷ b'm' ∷ b'.' ∷ b'd' ∷ b'r' ∷ b'm' ∷ b'M' ∷ b'a' ∷ b'n' ∷ b'a' ∷ b'g' ∷ b'e'
          ∷ b'r' ∷ [],
    )
    ∷ (aid_system, b'n' ∷ b'f' ∷ b'c' ∷ [])
    ∷ (aid_system, b'r' ∷ b'a' ∷ b'd' ∷ b'i' ∷ b'o' ∷ b'.' ∷ b'p' ∷ b'h' ∷ b'o' ∷ b'n' ∷ b'e' ∷ [])
    ∷ (aid_system, b'r' ∷ b'a' ∷ b'd' ∷ b'i' ∷ b'o' ∷ b'.' ∷ b's' ∷ b'm' ∷ b's' ∷ [])
    ∷ (
      aid_system,
      b'r' ∷ b'a' ∷ b'd' ∷ b'i' ∷ b'o' ∷ b'.' ∷ b'p' ∷ b'h' ∷ b'o' ∷ b'n' ∷ b'e' ∷ b's' ∷ b'u'
          ∷ b'b' ∷ b'i' ∷ b'n' ∷ b'f' ∷ b'o' ∷ [],
    )
    ∷ (
      aid_system,
      b'r' ∷ b'a' ∷ b'd' ∷ b'i' ∷ b'o' ∷ b'.' ∷ b's' ∷ b'i' ∷ b'm' ∷ b'p' ∷ b'h' ∷ b'o' ∷ b'n'
          ∷ b'e' ∷ b'b' ∷ b'o' ∷ b'o' ∷ b'k' ∷ [],
    )
    ∷ (aid_system, b'p' ∷ b'h' ∷ b'o' ∷ b'n' ∷ b'e' ∷ [])
    ∷ (aid_system, b's' ∷ b'i' ∷ b'p' ∷ [])
    ∷ (aid_system, b'i' ∷ b's' ∷ b'm' ∷ b's' ∷ [])
    ∷ (
      aid_system,
      b'i' ∷ b'p' ∷ b'h' ∷ b'o' ∷ b'n' ∷ b'e' ∷ b's' ∷ b'u' ∷ b'b' ∷ b'i' ∷ b'n' ∷ b'f' ∷ b'o' ∷ [],
    )
    ∷ (
      aid_system,
      b's' ∷ b'i' ∷ b'm' ∷ b'p' ∷ b'h' ∷ b'o' ∷ b'n' ∷ b'e' ∷ b'b' ∷ b'o' ∷ b'o' ∷ b'k' ∷ [],
    )
    ∷ []

-- NULL is read only behind a uid that matches, of which there is none left.
unfoldable pub svc_can_register : ℕ → Option (List ℕ) → Bool
unfolding in_allowed
svc_can_register uid s =
    if uid == 0 || uid == aid_system
    then true
    else elim s [ none ↦ false | some name ↦ in_allowed uid name allowed ]

-- memcmp of so many units, where the lists are long enough
unfoldable pub same_units : ℕ → List ℕ → List ℕ → Bool
same_units zero xs ys = true
same_units (suc n) [] ys = false
same_units (suc n) (x ∷ xs) [] = false
same_units (suc n) (x ∷ xs) (y ∷ ys) = x == y && same_units n xs ys

unfoldable pub find_svc : Option (List ℕ) → ℕ → List Svcinfo → Run (Option Svcinfo)
unfolding same_units
find_svc s len [] = done none
find_svc none len (si ∷ rest) =
    let others = find_svc none len rest in
    if len == si.len then if len == 0 then done (some si) else fault else others
find_svc (some units) len (si ∷ rest) =
    let others = find_svc (some units) len rest in
    if len == si.len && same_units len units si.name then done (some si) else others

-- The service behind an address is changed.
unfoldable pub update : ℕ → (Svcinfo → Svcinfo) → List Svcinfo → List Svcinfo
update id f [] = []
update id f (si ∷ rest) =
    let others = update id f rest in if si.id == id then f si ∷ others else si ∷ others

unfoldable pub by_id : ℕ → List Svcinfo → Option Svcinfo
by_id id [] = none
by_id id (si ∷ rest) = if si.id == id then some si else by_id id rest

abbrev pub with_ptr : ℕ → Svcinfo → Svcinfo
with_ptr p si = record si { ptr = p }

-- The service at the address is given up, if it has one.
unfoldable pub give_up : ℕ → Option Svcinfo → Manager → Manager
give_up id none m = m
give_up id (some si) m = if si.ptr == 0 then m else record m {
  svclist = update id (with_ptr 0) m.svclist;
  sent = Command.bc_release si.ptr ∷ m.sent;
}

unfoldable pub svcinfo_death : ℕ → Manager → Manager
unfolding give_up
svcinfo_death id m = give_up id (by_id id m.svclist) m

-- 0 is NULL.
unfoldable pub do_find_service : Option (List ℕ) → ℕ → Manager → Run ℕ
do_find_service s len m = elim (find_svc s len m.svclist) [
  | fault ↦ fault
  | done o ↦ elim o [ none ↦ done 0 | some si ↦ done si.ptr ]
]

-- malloc: whether it found memory.
unfoldable pub malloc : Manager → Bool × Manager
malloc m = elim m.memory [ [] ↦ (true, m) | b ∷ rest ↦ (b, record m { memory = rest }) ]

abbrev pub new_svc : ℕ → List ℕ → ℕ → Manager → Svcinfo
new_svc p units len m = record { id = length m.svclist; ptr = p; name = take len units; len = len }

-- The reference is taken, and the death of the service will be told.
abbrev pub hold : ℕ → ℕ → Manager → Manager
hold p id m = record m {
  sent = Command.bc_request_death_notification p id ∷ Command.bc_acquire p ∷ m.sent;
}

-- A known name gets another service; the old one is given up as if it had died.
unfoldable pub replace_svc : ℕ → Svcinfo → Manager → Manager
unfolding svcinfo_death
replace_svc p si m =
    let m' = svcinfo_death si.id m in
    hold p si.id (record m' { svclist = update si.id (with_ptr p) m'.svclist })

unfoldable pub register_svc : ℕ → Option (List ℕ) → ℕ → Manager → Run (Bool × Manager)
unfolding malloc
register_svc p s len m =
    let (there, m') = malloc m in
    if there
    then elim s [
      | none ↦ fault
      | some units ↦
          let si = new_svc p units len m' in
          done (true, hold p si.id (record m' { svclist = si ∷ m'.svclist }))
    ]
    else done (false, m')

-- `true` is 0, `false` is -1.
unfoldable pub do_add_service : Option (List ℕ) → ℕ → ℕ → ℕ → Manager → Run (Bool × Manager)
do_add_service s len p uid m =
    if p == 0 || len == 0 || ltb 127 len
    then done (false, m)
    else if svc_can_register uid s
    then elim (find_svc s len m.svclist) [
      | fault ↦ fault
      | done o ↦ elim o [
        | some si ↦ done (true, replace_svc p si m)
        | none ↦ register_svc p s len m
      ]
    ]
    else done (false, m)
