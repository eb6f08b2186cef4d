-- ===== src/Pdm/Slots/Callbacks.antt =====
-- The part of a log that other drivers see: the calls of their callbacks.
use linux_drv.Prelude.{Option, [], arith, none, refl, some, ℕ, ◌∷◌, ◌≡◌}
use linux_drv.Kernel.{Log, Os, isr, offline, online}
use linux_drv.Pdm.Slots.Cards.{offline_call, online_call}
use linux_drv.Pdm.Slots.Irq.{int_reg_op}

-- The calls of online, offline and interrupt callbacks, newest first.
abbrev pub cbs : Log → Log
cbs [] = []
cbs (online cb i base ∷ l) = online cb i base ∷ cbs l
cbs (offline cb i ∷ l) = offline cb i ∷ cbs l
cbs (isr f a ∷ l) = isr f a ∷ cbs l
cbs (_ ∷ l) = cbs l

pub cbs-int_reg_op : (val i : ℕ) (l : Log) → cbs (int_reg_op val i l) ≡ cbs l
cbs-int_reg_op val i l = ground arith

-- The call of `cb_offline`, if there is one.
abbrev pub offline_cbs : Option ℕ → ℕ → Log → Log
offline_cbs none i l = l
offline_cbs (some cb) i l = offline cb i ∷ l

abbrev pub online_cbs : Option ℕ → ℕ → ℕ → Log → Log
online_cbs none i base l = l
online_cbs (some cb) i base l = online cb i base ∷ l

pub cbs-offline_call :
    (cb : Option ℕ) (i : ℕ) (l : Log) → cbs (offline_call cb i l) ≡ offline_cbs cb i (cbs l)
unfolding offline_call
cbs-offline_call none i l = refl
cbs-offline_call (some cb) i l = refl

pub cbs-online_call :
    (os : Os) (i base : ℕ) (cb : Option ℕ) (l : Log)
    → cbs (online_call os i base cb l).1 ≡ online_cbs cb i base (cbs l)
unfolding online_call
cbs-online_call os i base none l = refl
cbs-online_call os i base (some cb) l = refl
