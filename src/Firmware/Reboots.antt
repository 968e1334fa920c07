-- ===== src/Firmware/Reboots.antt =====
-- What has gone before a reboot.
use cnaas_nms.Prelude.{
  ◌≡◌, inl, inr, refl, sym, ◌∙◌, is_false, Bool-cases, Bool, true, false, [], any, ◌&&◌,
}
use cnaas_nms.Prelude.Exec.{ok}
use cnaas_nms.Firmware.{
  UpgradeStep, device_reboot, post_flight_check, UpgradeArgs, UpgradeAnswers, ActivateAnswer,
  activated, already_active, not_activated, device_upgrade_task, when, activate_by, after_download,
  after_pre_flight,
}

abbrev pub is_reboot : UpgradeStep → Bool
is_reboot device_reboot = true
is_reboot _ = false

-- All steps that were asked for and come before a reboot have succeeded.
abbrev pub Ready : UpgradeArgs → UpgradeAnswers → Type 0
Ready args answers =
    (args.reboot ≡ true)
    × (args.pre_flight ≡ true → answers.pre_flight_ok ≡ true)
    × (args.download ≡ true → answers.download_ok ≡ true)
    × (args.activate ≡ true → answers.activation ≡ activated)

not_true : false ≡ true → ⊥
not_true h = cc

last_reboot :
    (reboot post skip : Bool)
    → any is_reboot
        (when
          (reboot && is_false skip)
          device_reboot
          (when (post && is_false skip) post_flight_check (ok tt, []))).1
      ≡ true
    → (reboot ≡ true) × (skip ≡ false)
last_reboot true post false h = (refl, refl)
last_reboot true true true h = absurd (not_true h)
last_reboot true false true h = absurd (not_true h)
last_reboot false true false h = absurd (not_true h)
last_reboot false true true h = absurd (not_true h)
last_reboot false false skip h = absurd (not_true h)

activation_reboot :
    (args : UpgradeArgs) (a : ActivateAnswer)
    → any is_reboot (activate_by args a).1 ≡ true
    → (args.reboot ≡ true) × (a ≡ activated)
activation_reboot args activated h = ((last_reboot args.reboot args.post_flight false h).0, refl)
activation_reboot args already_active h =
    absurd (not_true (sym (last_reboot args.reboot args.post_flight true h).1))
activation_reboot args not_activated h = absurd (not_true h)

download_reboot :
    (args : UpgradeArgs) (answers : UpgradeAnswers)
    → any is_reboot (after_download args answers).1 ≡ true
    → (args.reboot ≡ true) × (args.activate ≡ true → answers.activation ≡ activated)
download_reboot args answers h = elim (Bool-cases args.activate) [
  | inl y ↦ let r = activation_reboot args answers.activation (rw y at h) in (r.0, λ e. r.1)
  | inr n ↦ (
    (last_reboot args.reboot args.post_flight false (rw n at h)).0,
    λ e. absurd (not_true (sym n ∙ e)),
  )
]

pre_flight_reboot :
    (args : UpgradeArgs) (answers : UpgradeAnswers)
    → any is_reboot (after_pre_flight args answers).1 ≡ true
    → (args.reboot ≡ true)
      × (args.download ≡ true → answers.download_ok ≡ true)
      × (args.activate ≡ true → answers.activation ≡ activated)
pre_flight_reboot args answers h = elim (Bool-cases args.download) [
  | inl y ↦ elim (Bool-cases answers.download_ok) [
    | inl good ↦ let r = download_reboot args answers (rw (y, good) at h) in (r.0, λ e. good, r.1)
    | inr bad ↦ absurd (not_true (rw (y, bad) at h))
  ]
  | inr n ↦
      let r = download_reboot args answers (rw n at h) in
      (r.0, λ e. absurd (not_true (sym n ∙ e)), r.1)
]

-- A switch is rebooted only where a reboot was asked for, and where the pre-flight check, the download
-- and the activation succeeded as far as they were asked for: not where one failed, and not where the
-- firmware was active already.
pub device_upgrade_task-reboot :
    (args : UpgradeArgs) (answers : UpgradeAnswers)
    → any is_reboot (device_upgrade_task args answers).1 ≡ true
    → Ready args answers
unfolding device_upgrade_task
device_upgrade_task-reboot args answers h = elim (Bool-cases args.pre_flight) [
  | inl y ↦ elim (Bool-cases answers.pre_flight_ok) [
    | inl good ↦
        let r = pre_flight_reboot args answers (rw (y, good) at h) in (r.0, λ e. good, r.1, r.2)
    | inr bad ↦ absurd (not_true (rw (y, bad) at h))
  ]
  | inr n ↦
      let r = pre_flight_reboot args answers (rw n at h) in
      (r.0, λ e. absurd (not_true (sym n ∙ e)), r.1, r.2)
]
