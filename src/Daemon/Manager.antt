-- ===== src/Daemon/Manager.antt =====
-- `CPrcMngInfo` and the two kinds of managers: how a process is started and stopped.
use linux_drv.Prelude.{
  Bool, [], if◌then◌else◌, is_neg, negsuc, none, not, pos, some, ℕ, ℤ, ◌&&◌, ◌++◌, ◌||◌, ◌∷◌,
}
use linux_drv.Card.{etindev_null, is_card_n_null, is_card_type_err}
use linux_drv.Daemon.Runtime.{capture, s_release, signal_kill, signal_term}
use linux_drv.Daemon.State.{
  Card, Daemon, Run, Sys, call, fault, first_entry, is_empty, ok, on_off_line, own, put_mng, queued,
  remove, unlinked, ◌>>=◌,
}

-- `addIn2Start`: a node that is linked already would tear the list.
unfoldable pub add_in2_start : ℕ → Daemon → Run Daemon
add_in2_start m d =
    let d1 = record d { start_timer = is_empty d.to_start || d.start_timer } in
    let d2 = put_mng m (record (d.mngs m) { link = queued }) d1 in
    elim (d.mngs m).link [
      | queued ↦ fault
      | _ ↦ ok (record d2 { to_start = d.to_start ++ (m ∷ []) })
    ]

-- `delFrom2Start`
unfoldable pub del_from2_start : ℕ → Daemon → Run Daemon
del_from2_start m d =
    let d1 = put_mng m (record (d.mngs m) { link = unlinked }) d in
    elim (d.mngs m).link [
      | own ↦ ok d1
      | unlinked ↦ fault
      | queued ↦ ok (record d1 { to_start = remove m d.to_start })
    ]

-- `haveCardInserted`
abbrev pub have_card_inserted : Card → Bool
have_card_inserted c = is_card_n_null c.card_kind

-- The end of `subStart` and of `subStop`.
unfoldable pub removed : ℕ → Daemon → Run (ℤ × Daemon)
removed m d = del_from2_start m d >>= λ d1. ok (pos 0, d1)

unfoldable pub queued_again : ℕ → Daemon → Run (ℤ × Daemon)
queued_again m d = add_in2_start m d >>= λ d1. ok (pos 0, d1)

-- `subStart` behind `sCapture`.
unfoldable pub captured : ℕ → ℤ × Daemon → Run (ℤ × Daemon)
captured m (ret, d) = if is_neg ret then ok (ret, d) else removed m d

-- `subStart` of a manager: that of `CStaticPrcMngInfo` and that of `CDynamicPrcMngInfo`, whose
-- card type must have a name.
unfoldable pub sub_start : Sys → ℕ → Daemon → Run (ℤ × Daemon)
sub_start sys m d = elim (d.mngs m).card [
  | none ↦ captured m (capture sys m d)
  | some c ↦
      if not (have_card_inserted c)
      then removed m d
      else if is_card_type_err c.card_kind
      then ok (negsuc 0, d)
      else captured m (capture sys m d)
]

-- The ioctl PDM_IOC_CARD_ON_OFF_LINE.
unfoldable pub on_off : Sys → ℕ → ℤ → Daemon → ℤ × Daemon
on_off sys slot_no t d = (sys d.calls (on_off_line slot_no t), call (on_off_line slot_no t) d)

-- `CDynamicPrcMngInfo::subStop` behind the release.
unfoldable pub card_stopped : Sys → ℕ → Card → Daemon → Run (ℤ × Daemon)
card_stopped sys m c d =
    let (ret, d1) = on_off sys c.slot_no etindev_null d in
    let (ret2, d2) = on_off sys c.slot_no c.card_kind d1 in
    if is_neg ret
    then ok (ret, d1)
    else if not (have_card_inserted c && not d.exit_flag)
    then ok (pos 0, d1)
    else if is_neg ret2
    then ok (ret2, d2)
    else queued_again m d2

-- `subStop` behind the release, of either kind.
unfoldable pub released : Sys → ℕ → ℤ × Daemon → Run (ℤ × Daemon)
released sys m (ret, d) =
    if is_neg ret
    then ok (ret, d)
    else elim (d.mngs m).card [ none ↦ queued_again m d | some c ↦ card_stopped sys m c d ]

-- `subStop`; `i` is the entry of the manager's process.
unfoldable pub sub_stop : Sys → ℕ → ℕ → Daemon → Run (ℤ × Daemon)
sub_stop sys m i d = s_release sys i d >>= λ r. released sys m r

-- `start` and `stop`
unfoldable pub start : Sys → ℕ → Daemon → Run Daemon
start sys m d = elim (d.mngs m).child [ some i ↦ ok d | none ↦ sub_start sys m d >>= λ r. ok r.1 ]

unfoldable pub stop : Sys → ℕ → Daemon → Run Daemon
stop sys m d = elim (d.mngs m).child [ none ↦ ok d | some i ↦ sub_stop sys m i d >>= λ r. ok r.1 ]

-- `Term4Stop` and `Kill4Stop`
unfoldable pub term4_stop : Sys → ℕ → Daemon → Run Daemon
term4_stop sys m d = elim (d.mngs m).child [ none ↦ ok d | some i ↦ signal_term sys i d ]

unfoldable pub kill4_stop : Sys → ℕ → Daemon → Run Daemon
kill4_stop sys m d = elim (d.mngs m).child [ none ↦ ok d | some i ↦ signal_kill sys i d ]

-- `sCheckNeedStart`
unfoldable pub check_need_start : Sys → Daemon → Run Daemon
check_need_start sys d = do
  d1 ← elim (first_entry d.to_start) [ none ↦ ok d | some m ↦ start sys m d ]
  ok (record d1 { start_timer = d1.start_timer && not (is_empty d1.to_start) })
