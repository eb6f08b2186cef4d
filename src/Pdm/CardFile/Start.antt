-- ===== src/Pdm/CardFile/Start.antt =====
-- The start of the device file against its end.
use linux_drv.Prelude.{[], false, is_neg, map, pos, refl, replicate, true, ◌∷◌, ◌≡◌}
use linux_drv.Card.{etin_slot_max, etindev_null}
use linux_drv.Kernel.{Log, Os, cdev_add, cdev_del, device_create, device_destroy, enomem}
use linux_drv.Pdm.CardFile.ReadPoll.{pdm_poll, poll_out}
use linux_drv.Pdm.CardFile.State.{
  CardData, PdmDrv, init_cards, init_links, pdm_main_exit, pdm_main_init,
}

-- A file that was started: every card once in the list of data, with its slot and no type.
abbrev pub IsFresh : PdmDrv → Type 0
IsFresh d =
    (map (λ (c : CardData). c.slot_id) d.cards ≡ d.hd_data)
    × (map (λ (c : CardData). c.dev_type) d.cards ≡ replicate etin_slot_max etindev_null)
    × (d.hd_read ≡ [])
    × (pdm_poll d ≡ poll_out)

-- pdm_drv_main_init of the slot 0 succeeds exactly when cdev_add and device_create both do: then it
-- answers what cdev_add did, every card waits once for data, with its slot and no type, poll reports
-- the file writable only, and pdm_drv_main_exit undoes the two calls in the reverse order. Where one of
-- them fails, it answers an error and the device is destroyed and deleted, created or not.
pub pdm_main_init_lem :
    (os : Os) (d : PdmDrv) (l : Log)
    → let l1 : Log = cdev_add 0 ∷ l in
      let l2 : Log = device_create 0 ∷ l1 in
      let ret = (pdm_main_init os (pos 0) d l).0 in
      let d' = (pdm_main_init os (pos 0) d l).1 in
      let l' = (pdm_main_init os (pos 0) d l).2 in
      (is_neg (os l (cdev_add 0)) ≡ true
        → (ret ≡ os l (cdev_add 0)) × (l' ≡ cdev_del 0 ∷ device_destroy 0 ∷ l1))
      × (is_neg (os l (cdev_add 0)) ≡ false
          → (is_neg (os l1 (device_create 0)) ≡ true
              → (ret ≡ enomem)
                × (l' ≡ cdev_del 0 ∷ device_destroy 0 ∷ l2)
                × (d'.has_device ≡ false))
            × (is_neg (os l1 (device_create 0)) ≡ false
                → (ret ≡ os l (cdev_add 0))
                  × IsFresh d'
                  × ((pdm_main_exit (pos 0) d' l').1 ≡ cdev_del 0 ∷ device_destroy 0 ∷ l2)))
unfolding pdm_main_init pdm_main_exit init_cards init_links pdm_poll
pdm_main_init_lem os d l = (
  (λ e. rw e (refl, refl)),
  (λ e. (
    (λ f. rw (e, f) (refl, refl, refl)),
    (λ f. rw (e, f) (refl, (refl, refl, refl, refl), refl)),
  )),
)
