-- ===== src/Pinned/Order.antt =====
-- The order of the versions of hack/machinetype/main.go.
use spin_machine.Common.{◌≡◌, ◌↔◌, ◌⊎◌, inl, inr, refl, true, false, Bool-cases, arith}
use spin_machine.Pinned.Versions.{Version, newer, version_eq}
use spin_machine.Pinned.{newer_of}

pub version_eq_iff : (v w : Version) → (version_eq v w ≡ true) ↔ (v ≡ w)
unfolding version_eq
version_eq_iff v w = ground arith

pub not_newer_self : (v : Version) → newer v v ≡ false
unfolding newer
not_newer_self v = ground arith

pub not_newer_zero : (w : Version) → newer (record { major = 0; minor = 0 }) w ≡ false
unfolding newer
not_newer_zero w = ground arith

pub not_newer_trans : (x a b : Version) → newer x a ≡ false → newer a b ≡ false → newer x b ≡ false
unfolding newer
not_newer_trans x a b h k = ground arith

pub newer_of_keeps : (v newest : Version) → newer newest (newer_of v newest) ≡ false
unfolding newer
newer_of_keeps v newest = ground arith

pub newer_of_takes : (v newest : Version) → newer v (newer_of v newest) ≡ false
unfolding newer
newer_of_takes v newest = ground arith

pub newer_of_is : (v newest : Version) → (newer_of v newest ≡ v) ⊎ (newer_of v newest ≡ newest)
newer_of_is v newest = elim (Bool-cases (newer v newest)) [
  | inl e ↦ inl (rw e refl)
  | inr e ↦ inr (rw e refl)
]
