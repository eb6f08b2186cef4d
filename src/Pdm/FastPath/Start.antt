-- ===== src/Pdm/FastPath/Start.antt =====
-- The start and the end of the slot files.
use linux_drv.Prelude.{
  List, [], get_or, if◌then◌else◌, is_neg, length, none, pos, set, some, suc, zero, ℕ, ℤ, ◌-◌, ◌==◌,
  ◌∷◌,
}
use linux_drv.Card.{etin_slot_self, index}
use linux_drv.Kernel.{Log, Os, cdev_add, cdev_del, device_create, device_destroy, einval, enomem}
use linux_drv.Pdm.FastPath.Device.{SifpDrvs, drv_at, is_sifp_slot_err}

-- `sifp_drv_main_exit`
unfoldable pub sifp_exit : ℤ → SifpDrvs → Log → SifpDrvs × Log
sifp_exit x ds l =
    let d = drv_at ds (index x) in
    let l1 : Log = elim d.m_device [ none ↦ l | some minor ↦ device_destroy minor ∷ l ] in
    if is_sifp_slot_err x
    then (ds, l)
    else (set ds (index x) (record d { m_device = none }), cdev_del d.m_cdev ∷ l1)

-- `sifp_drv_main_init` of a slot with the minor number `minor`.
unfoldable pub sifp_init : Os → ℤ → ℕ → SifpDrvs → Log → ℤ × SifpDrvs × Log
sifp_init os x minor ds l =
    let i = index x in
    let added = os l (cdev_add minor) in
    let l1 = cdev_add minor ∷ l in
    let ds1 = set ds i (record (drv_at ds i) { m_cdev = minor }) in
    let created = os l1 (device_create minor) in
    let l2 = device_create minor ∷ l1 in
    let no_device = set ds1 i (record (drv_at ds1 i) { m_device = none }) in
    let undo1 = sifp_exit x ds1 l1 in
    let undo2 = sifp_exit x no_device l2 in
    if is_sifp_slot_err x
    then (einval, ds, l)
    else if is_neg added
    then (added, undo1.0, undo1.1)
    else if is_neg created
    then (enomem, undo2.0, undo2.1)
    else (added, set ds1 i (record (drv_at ds1 i) { m_device = some minor }), l2)

-- `s_mid_2_slot`: the slot of each minor number; 0 is none.
abbrev pub mid_2_slot : List ℕ
mid_2_slot = 0 ∷ 0 ∷ 0 ∷ etin_slot_self ∷ []

-- The loop of `sifp_init_all` over the entries from `i` on: the result and where it stopped.
unfoldable pub init_each : Os → ℕ → List ℕ → ℤ → SifpDrvs → Log → (ℤ × ℕ) × SifpDrvs × Log
init_each os i [] ret ds l = ((ret, i), ds, l)
init_each os i (x ∷ xs) ret ds l =
    let (r, ds', l') = sifp_init os (pos x) i ds l in
    let skip = init_each os (suc i) xs ret ds l in
    let rest = init_each os (suc i) xs r ds' l' in
    if x == 0 then skip else if is_neg r then ((r, i), ds', l') else rest

-- The loops that go down from the entry `i` to the entry 1.
unfoldable pub exit_down : List ℕ → ℕ → SifpDrvs → Log → SifpDrvs × Log
exit_down mids zero ds l = (ds, l)
exit_down mids (suc i) ds l =
    let x = get_or mids (suc i) 0 in
    let (ds', l') = sifp_exit (pos x) ds l in
    let skip = exit_down mids i ds l in
    let rest = exit_down mids i ds' l' in if x == 0 then skip else rest

-- `sifp_init_all` and `sifp_exit_all`
unfoldable pub init_all : Os → List ℕ → SifpDrvs → Log → ℤ × SifpDrvs × Log
init_all os mids ds l =
    let (done, ds', l') = init_each os 0 mids (pos 0) ds l in
    let undone = exit_down mids (done.1 - 1) ds' l' in
    if is_neg done.0 then (done.0, undone.0, undone.1) else (done.0, ds', l')

unfoldable pub exit_all : List ℕ → SifpDrvs → Log → SifpDrvs × Log
exit_all mids ds l = exit_down mids (length mids - 1) ds l
